-- ===== src/Epoll/Cleanup.antt =====
-- What closing connections does to the connection list, and what the clean-up leaves open.
use linux_modern_io_multiple.Prelude.{
  ℕ, zero, suc, ◌<◌, ◌≡◌, ◌≢◌, refl, ◌∙◌, arith, true, false, ◌==◌, if◌then◌else◌, [], ◌∷◌, ◌++◌,
  some, none,
}
use linux_modern_io_multiple.Prelude.Int.{ℤ, pos, negsuc, eqb_ℤ}
use linux_modern_io_multiple.Prelude.Run.{ok, fault}
use linux_modern_io_multiple.Links.{Ptr, null, node, Heap, write, load, set_next, Ends, ends}
use linux_modern_io_multiple.Links.Chain.{
  Cells, has, last, load-ok, not_null, eq_self, has_other, free-ok, set_next-same,
}
use linux_modern_io_multiple.Epoll.{
  Connection, Server, dll_remove, close_client, close_all, do_service_loop_cleanup,
}
use linux_modern_io_multiple.Epoll.Connections.{BackLinked, IsBackList}

-- What the list says of one of its nodes.
pub record Member (h : Heap Connection) (b : Ptr) (xs ys : Cells Connection) (p : Ptr)
    (c : Connection) : Type 0 where
  pub ne : p ≢ null
  pub here : h p ≡ some (node c null (last b xs))
  pub out_ys : has p ys ≡ false
  pub rest : BackLinked h p ys

pub member :
    (h : Heap Connection) (b : Ptr) (xs ys : Cells Connection) (p : Ptr) (c : Connection)
    → BackLinked h b (xs ++ ((p, c) ∷ ys))
    → Member h b xs ys p c
member h b [] ys p c (ne, e, out, l) = record { ne = ne; here = e; out_ys = out; rest = l }
member h b ((q, d) ∷ xs) ys p c (ne, e, out, l) =
    let m = member h q xs ys p c l in
    record { ne = m.ne; here = m.here; out_ys = m.out_ys; rest = m.rest }

-- The node before it.
before :
    (h : Heap Connection) (b : Ptr) (q : Ptr) (d : Connection) (xs ys : Cells Connection) (p : Ptr)
    (c : Connection)
    → BackLinked h b ((q, d) ∷ (xs ++ ((p, c) ∷ ys)))
    → (d' : Connection) × (r : Ptr) × (last q xs ≢ null) × (h (last q xs) ≡ some (node d' null r))
before h b q d [] ys p c (ne, e, out, l) = (d, b, ne, e)
before h b q d ((y, w) ∷ xs) ys p c (ne, e, out, l) = before h q y w xs ys p c l

-- The ends once a node with no `next` and the previous node `r` is taken out.
abbrev without : Ends → Ptr → Ptr → Ends
without l p r = ends (if p == l.head then null else l.head) (if p == l.tail then r else l.tail)

-- Removal changes nothing but the ends: the node before had no `next` to begin with.
dll_remove_lem :
    (l : Ends) (h : Heap Connection) (xs ys : Cells Connection) (p : Ptr) (c : Connection)
    → BackLinked h null (xs ++ ((p, c) ∷ ys))
    → (l' : Ends) × (g : Heap Connection) × (dll_remove l p h ≡ ok (l', g))
      × ((q : Ptr) → g q ≡ h q)
unfolding dll_remove
dll_remove_lem l h [] ys p c chain =
    let m = member h null [] ys p c chain in
    (without l p null, h, simp (load-ok h p (node c null null) m.ne m.here), λ q. refl)
dll_remove_lem l h ((y, w) ∷ xs) ys p c chain =
    let m = member h null ((y, w) ∷ xs) ys p c chain in
    let (d, r, ne, e) = before h null y w xs ys p c chain in
    let (g, ran, same) = set_next-same h (last y xs) d null r ne e in
    (
      without l p (last y xs),
      g,
      simp (
        load-ok h p (node c null (last y xs)) m.ne m.here,
        not_null (last y xs) ne,
        ran,
        load-ok g p (node c null (last y xs)) m.ne (same p ∙ m.here),
      ),
      same,
    )

-- A client of the list is closed: its descriptor, and its memory; all other memory stays.
pub close_client_lem :
    (s : Server) (xs ys : Cells Connection) (p : Ptr) (c : Connection)
    → IsBackList s (xs ++ ((p, c) ∷ ys))
    → (s' : Server) × (close_client s p (pos 0) ≡ ok s')
      × (s'.closed ≡ s.closed ++ (c.fd ∷ []))
      × (s'.sent ≡ s.sent)
      × (s'.heap p ≡ none)
      × ((q : Ptr) → q ≢ p → s'.heap q ≡ s.heap q)
unfolding close_client
close_client_lem s xs ys p c il =
    let m = member s.heap null xs ys p c il.chain in
    let (l, g, ran, same) = dll_remove_lem s.dll s.heap xs ys p c il.chain in
    let found = load-ok g p (node c null (last null xs)) m.ne (same p ∙ m.here) in
    (
      record s { dll = l; heap = write g p none; closed = s.closed ++ (c.fd ∷ []) },
      simp (ran, found, free-ok g p (node c null (last null xs)) m.ne (same p ∙ m.here)),
      refl,
      refl,
      (unfold write in rw (eq_self p)),
      λ q ne. (unfold write in ground (arith, same q)),
    )

-- A removal follows `prev` into memory that is not allocated.
stale_prev :
    (s : Server) (p q : Ptr) (d : Connection) (close : ℤ)
    → p ≢ null
    → q ≢ null
    → s.heap p ≡ none
    → s.heap q ≡ some (node d null p)
    → close_client s q close ≡ fault
unfolding close_client dll_remove set_next load
stale_prev s p q d close ne ne' freed here = simp (not_null q ne', here, not_null p ne, freed)

-- Closing a client, which succeeds, and then the one that connected right after it uses freed memory, whatever else
-- is in the list: the second one's `prev` still leads to the first.
pub close_client-close_client-fault :
    (s : Server) (xs ys : Cells Connection) (p q : Ptr) (c d : Connection) (close : ℤ)
    → IsBackList s (xs ++ ((p, c) ∷ ((q, d) ∷ ys)))
    → (s' : Server) × (close_client s p (pos 0) ≡ ok s') × (close_client s' q close ≡ fault)
close_client-close_client-fault s xs ys p q c d close il =
    let m = member s.heap null xs ((q, d) ∷ ys) p c il.chain in
    let (s', ran, _, _, freed, same) = close_client_lem s xs ((q, d) ∷ ys) p c il in
    let (ne, here, _, _) = m.rest in
    (
      s',
      ran,
      stale_prev s' p q d close m.ne ne freed (same q (λ e. ground (arith, m.out_ys)) ∙ here),
    )

-- The clean-up closes the epoll instance and the client that connected first, and no other: the
-- others keep their descriptors and their memory, whatever `close` would answer for them. No timer
-- is open, and closing those two succeeds. Two
-- rounds are fuel enough.
pub do_service_loop_cleanup-first :
    (close : ℤ → ℤ) (epoll_fd fuel : ℕ) (s : Server) (p : Ptr) (c : Connection)
    (xs : Cells Connection)
    → IsBackList s ((p, c) ∷ xs)
    → s.timer ≡ negsuc 0
    → close (pos epoll_fd) ≡ pos 0
    → close c.fd ≡ pos 0
    → 1 < fuel
    → (s' : Server) × (do_service_loop_cleanup close epoll_fd fuel s ≡ ok s')
      × (s'.closed ≡ (s.closed ++ (pos epoll_fd ∷ [])) ++ (c.fd ∷ []))
      × (s'.heap p ≡ none)
      × ((q : Ptr) → has q xs ≡ true → s'.heap q ≡ s.heap q)
unfolding do_service_loop_cleanup close_all
do_service_loop_cleanup-first close epoll_fd zero s p c xs il off e f fuel = absurd (omega arith)
do_service_loop_cleanup-first close epoll_fd (suc zero) s p c xs il off e f fuel =
    absurd (omega arith)
do_service_loop_cleanup-first close epoll_fd (suc (suc k)) s p c xs il off e f fuel =
    let quiet = record s { closed = s.closed ++ (pos epoll_fd ∷ []) } in
    let il' : IsBackList quiet ((p, c) ∷ xs) = record {
      head = il.head;
      tail = il.tail;
      chain = il.chain;
    } in
    let (ne, here, out, _) = il.chain in
    let (s', ran, closed, _, freed, same) = close_client_lem quiet [] xs p c il' in
    (
      s',
      simp (
        no_timer,
        e,
        il.head,
        not_null p ne,
        load-ok s.heap p (node c null null) ne here,
        f,
        ran,
      ),
      closed,
      freed,
      λ q i. same q (λ e. ground (arith, has_other q p xs i out)),
    )
  where
    no_timer : eqb_ℤ s.timer (negsuc 0) ≡ true
    no_timer = rw off
