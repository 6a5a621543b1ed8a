-- ===== src/Uring/Loop/Accepting.antt =====
-- An accept that completes, of a server of which all is well.
use linux_modern_io_multiple.Prelude.{
  ℕ, suc, ◌+◌, ◌≡◌, ◌≢◌, ◌∙◌, refl, sym, subst, arith, dec_lt, List, [], ◌∷◌, ◌++◌, length,
  length-append, none, some, inl, inr, Bool-cases, false, ◌==◌,
}
use linux_modern_io_multiple.Prelude.Int.{ℤ, pos, negsuc}
use linux_modern_io_multiple.Links.{Ptr, null}
use linux_modern_io_multiple.Links.Chain.{IsList, Cells, Linked, SameOutside, has, has-append}
use linux_modern_io_multiple.Uring.Tracker.{TrackerHeap}
use linux_modern_io_multiple.Uring.Ring.{Sqe, Cqe}
use linux_modern_io_multiple.Uring.Ring.Completion.{SameCompletions, IsPosted-same}
use linux_modern_io_multiple.Uring.Ring.Submission.{IsQueue}
use linux_modern_io_multiple.Uring.Server.{new_op, Server, Allocated, service_cqe_events}
use linux_modern_io_multiple.Uring.Server.Clients.{
  accept_op, accept_sqe, fresh_con, service_cqe_events-accepted,
}
use linux_modern_io_multiple.Uring.Server.Echo.{cqe_of, recv_sqe}
use linux_modern_io_multiple.Uring.Server.Exits.{
  accept-exited, accept-no_tracker, accept-no_op, accept-full,
}
use linux_modern_io_multiple.Uring.Loop.Clients.{
  IsClient-same, IsClient-allocated, AreClients-along, AreClients-append,
}
use linux_modern_io_multiple.Uring.Loop.Clients.IsClient.{receives}
use linux_modern_io_multiple.Uring.Loop.Pending.{
  count, count_sqes, count_cqes, count_clients, hit, hit_self, count_sqes-append,
  count_clients-append,
}
use linux_modern_io_multiple.Uring.Loop.Stored.{Alive, Handled}

-- A node that is not allocated is in no chain.
pub Linked-free :
    (h : TrackerHeap) (b : Ptr) (xs : Cells Ptr) (a q : Ptr)
    → Linked h b xs a
    → h q ≡ none
    → has q xs ≡ false
Linked-free h b [] a q l e = refl
Linked-free h b ((p, v) ∷ xs) a q (ne, here, out, l) e = elim (Bool-cases (q == p)) [
  | inl hit ↦ let same : q ≡ p = ground arith in let there = subst (λ r. h r ≡ none) same e in cc
  | inr miss ↦ ground (arith, Linked-free h p xs a q l e)
]

module _ (n : ℕ) (acc : Ptr) (ls : ℤ) (s : Server) (flight : List Ptr) (xs : List Sqe)
    (ps : List Cqe) (cs : Cells Ptr) (p : Ptr) (a : Allocated)
    (alive : Alive acc ls s (p ∷ flight) xs ps cs) where
  abbrev Served : ℤ → Type 0
  Served r = Handled acc ls flight xs ps (service_cqe_events n s (cqe_of p r) a)

  -- With the new client's receive and the next accept queued, all is well.
  Alive-accepted :
      (fd : ℕ) (s' : Server)
      → p ≡ acc
      → p ≢ a.op_ptr
      → s.ops a.op_ptr ≡ none
      → a.op_ptr ≢ null
      → IsQueue s'.iou (xs ++ (recv_sqe n a.op_ptr (fresh_con n fd) ∷ (accept_sqe p ls ∷ [])))
      → IsList s'.tracker s'.nodes (cs ++ ((a.tracker_ptr, a.op_ptr) ∷ []))
      → s'.ops a.op_ptr ≡ some (new_op n a.tracker_ptr (pos fd))
      → ((q : Ptr) → q ≢ a.op_ptr → s'.ops q ≡ s.ops q)
      → SameCompletions s'.iou s.iou
      → SameOutside (cs ++ ((a.tracker_ptr, a.op_ptr) ∷ [])) s.nodes s'.nodes
      → Alive acc ls s' flight
          (xs ++ (recv_sqe n a.op_ptr (fresh_con n fd) ∷ (accept_sqe p ls ∷ [])))
          ps
          (cs ++ ((a.tracker_ptr, a.op_ptr) ∷ []))
  Alive-accepted fd s' same apart new_op pne q il made others cq outer = record {
    queue = q;
    posted = IsPosted-same s'.iou s.iou ps cq alive.posted;
    tracked = il;
    clients =
        AreClients-append s'.ops cs ((a.tracker_ptr, a.op_ptr) ∷ [])
          (AreClients-along s.ops s'.ops cs
            (λ u r _ c.
              IsClient-same s.ops s'.ops u r
                (others r (IsClient-allocated s.ops u r a.op_ptr c new_op)) c)
            alive.clients)
          (pne, receives (fresh_con n fd) made, tt);
    nonnull = alive.nonnull;
    addrlen = alive.addrlen;
    accepting = (rw (← same) (others p apart)) ∙ alive.accepting;
    pending = λ r. counted r;
    total = omega (
      arith,
      alive.total,
      length-append xs (recv_sqe n a.op_ptr (fresh_con n fd) ∷ (accept_sqe p ls ∷ [])),
      length-append cs ((a.tracker_ptr, a.op_ptr) ∷ []),
    );
    ops_owned = λ r free.
        let more = count_clients-append r cs ((a.tracker_ptr, a.op_ptr) ∷ []) in
        others r (elsewhere r free) ∙ alive.ops_owned r (omega arith);
    nodes_owned = λ u out.
        outer u out
        ∙ alive.nodes_owned u (ground (arith, has-append u cs ((a.tracker_ptr, a.op_ptr) ∷ [])));
  }
    where
      elsewhere :
          (r : Ptr)
          → hit r acc + count_clients r (cs ++ ((a.tracker_ptr, a.op_ptr) ∷ [])) ≡ 0
          → r ≢ a.op_ptr
      elsewhere r free same =
          let there : hit r a.op_ptr ≡ 1 = rw same (hit_self a.op_ptr) in
          absurd (omega (arith, count_clients-append r cs ((a.tracker_ptr, a.op_ptr) ∷ [])))

      counted :
          (r : Ptr)
          → count_sqes r (xs ++ (recv_sqe n a.op_ptr (fresh_con n fd) ∷ (accept_sqe p ls ∷ [])))
              + (count r flight + count_cqes r ps)
            ≡ hit r acc + count_clients r (cs ++ ((a.tracker_ptr, a.op_ptr) ∷ []))
      counted r = omega (
        arith,
        alive.pending r,
        count_sqes-append r xs (recv_sqe n a.op_ptr (fresh_con n fd) ∷ (accept_sqe p ls ∷ [])),
        count_clients-append r cs ((a.tracker_ptr, a.op_ptr) ∷ []),
      )

  -- An accepted connection, with memory for it.
  accepted-Served :
      (fd : ℕ)
      → p ≢ null
      → s.ops p ≡ some (accept_op ls alive.addrlen)
      → p ≡ acc
      → s.nodes a.tracker_ptr ≡ none
      → s.ops a.op_ptr ≡ none
      → a.tracker_ptr ≢ null
      → a.op_ptr ≢ null
      → Served (pos fd)
  accepted-Served fd ne here same new_node new_op tne pne =
      let out = Linked-free s.nodes null cs null a.tracker_ptr alive.tracked.chain new_node in
      elim (dec_lt (suc (length xs)) (s.iou).ring_size) [
        | yes room ↦
            let (s', ran, q, il, made, others, cq, outer) =
              service_cqe_events-accepted n s xs cs p fd alive.addrlen ls a alive.queue room
                alive.tracked ne here tne out pne apart in
            inr (record {
              server = s';
              sqes = recv_sqe n a.op_ptr (fresh_con n fd) ∷ (accept_sqe p ls ∷ []);
              cells = cs ++ ((a.tracker_ptr, a.op_ptr) ∷ []);
              ran = ran;
              alive = Alive-accepted fd s' same apart new_op pne q il made others cq outer;
            })
        | no full ↦ inl (
            accept-full n s xs cs p fd alive.addrlen ls a alive.queue (omega arith) alive.tracked ne
              here tne out pne apart)
      ]
    where
      apart : p ≢ a.op_ptr
      apart e = let gone = subst (λ r. s.ops r ≡ none) (sym e) new_op in cc

  -- An accept.
  pub accept-Served :
      (r : ℤ) → p ≡ acc → s.nodes a.tracker_ptr ≡ none → s.ops a.op_ptr ≡ none → Served r
  accept-Served (negsuc m) same new_node new_op =
      inl
        (accept-exited n s p a ls alive.addrlen m (rw same alive.nonnull) (rw same alive.accepting))
  accept-Served (pos fd) same new_node new_op =
      let ne : p ≢ null = rw same alive.nonnull in
      let here : s.ops p ≡ some (accept_op ls alive.addrlen) = rw same alive.accepting in
      elim (Bool-cases (a.tracker_ptr == 0)) [
        | inl gone ↦ inl (accept-no_tracker n s p a ls alive.addrlen fd ne here gone)
        | inr there ↦ elim (Bool-cases (a.op_ptr == 0)) [
          | inl gone ↦ inl (accept-no_op n s p a ls alive.addrlen fd ne here there gone)
          | inr there2 ↦
              accepted-Served fd ne here same new_node new_op (ground arith) (ground arith)
        ]
      ]
