-- ===== src/Uring/Server/Cleanup.antt =====
-- The clean-up of the io_uring server: it goes through the whole tracker.
use linux_modern_io_multiple.Prelude.{
  ℕ, zero, suc, ◌<◌, ◌≡◌, ◌≢◌, refl, sym, ap, ◌∙◌, arith, List, [], ◌∷◌, ◌++◌, append_assoc,
  append-nil, length, Bool, true, ◌&&◌, if◌then◌else◌, false, ◌==◌, some, none, Bool-cases, inl,
  inr,
}
use linux_modern_io_multiple.Prelude.Int.{ℤ, pos, negsuc}
use linux_modern_io_multiple.Prelude.Run.{Run, ok, exited, ◌>>=◌, assert_zero}
use linux_modern_io_multiple.Time.{is_zero}
use linux_modern_io_multiple.Links.{Ptr, null, node, write, ends}
use linux_modern_io_multiple.Links.Chain.{
  Cells, has, first, Linked, IsList, Linked-frame, has_other, load-ok, free-ok, not_null, eq_self,
}
use linux_modern_io_multiple.Uring.Tracker.{TrackerHeap}
use linux_modern_io_multiple.Uring.Ring.{OpType, ClientCon}
use linux_modern_io_multiple.Uring.Server.{
  Server, Ops, write_op, con_of, free_op, close_tracked, do_service_loop_cleanup,
}
use linux_modern_io_multiple.Uring.Server.Clients.{write-other}
use linux_modern_io_multiple.Uring.Server.Echo.{client_op, load_op-ok}

-- The operation of a client, with the descriptor and the tracker node that it leads back to.
pub record IsClient (ops : Ops) (t p : Ptr) (fd : ℤ) : Type 0 where
  pub kind : OpType
  pub con : ClientCon
  pub at : con.fd ≡ fd
  pub ne : p ≢ null
  pub here : ops p ≡ some (client_op kind con t)

-- Each tracker node leads to the operation of a client, on these descriptors.
abbrev pub Tracks : Ops → Cells Ptr → List ℤ → Type 0
Tracks ops [] [] = Unit
Tracks ops ((t, p) ∷ cs) (fd ∷ fds) = IsClient ops t p fd × Tracks ops cs fds
Tracks ops _ _ = Path ℕ 0 1

-- The objects of the tracker are freed.
abbrev pub AllFreed : TrackerHeap → Ops → Cells Ptr → Type 0
AllFreed nodes ops [] = Unit
AllFreed nodes ops ((t, p) ∷ cs) = (nodes t ≡ none) × (ops p ≡ none) × AllFreed nodes ops cs

-- Another client has another operation, as each leads back to its own tracker node.
Tracks-frame :
    (ops : Ops) (t p : Ptr) (fd : ℤ) (cs : Cells Ptr) (fds : List ℤ)
    → IsClient ops t p fd
    → has t cs ≡ false
    → Tracks ops cs fds
    → Tracks (write_op ops p none) cs fds
unfolding write_op
Tracks-frame ops t p fd [] [] c out tracked = tt
Tracks-frame ops t p fd [] (x ∷ fds) c out tracked = tracked
Tracks-frame ops t p fd (x ∷ cs) [] c out tracked = tracked
Tracks-frame ops t p fd ((u, r) ∷ cs) (x ∷ fds) c out (d, tracked) = (
  record { kind = d.kind; con = d.con; at = d.at; ne = d.ne; here = rw different d.here },
  Tracks-frame ops t p fd cs fds c (ground arith) tracked,
)
  where
    tracker : (r ≡ p) → u ≡ t
    tracker same =
        let both : some (client_op d.kind d.con u) ≡ some (client_op c.kind c.con t) =
          sym d.here ∙ ap ops same ∙ c.here in
        cc

    different : (r == p) ≡ false
    different = elim (Bool-cases (r == p)) [
      | inl hit ↦ let e = tracker (ground arith) in ground arith
      | inr miss ↦ miss
    ]

-- What the loop does to the rest of the memory, and to the descriptors.
record Closed (s s' : Server) (cs : Cells Ptr) (fds : List ℤ) : Type 0 where
  closed : s'.closed ≡ s.closed ++ fds
  freed : AllFreed s'.nodes s'.ops cs
  no_node : (q : Ptr) → s.nodes q ≡ none → s'.nodes q ≡ none
  no_op : (q : Ptr) → s.ops q ≡ none → s'.ops q ≡ none

-- Every one of these descriptors can be closed.
abbrev pub all_close : (ℤ → ℤ) → List ℤ → Bool
all_close close [] = true
all_close close (fd ∷ fds) = is_zero (close fd) && all_close close fds

pub all_close-append_one :
    (close : ℤ → ℤ) (fds : List ℤ) (fd : ℤ)
    → all_close close (fds ++ (fd ∷ [])) ≡ (all_close close fds && is_zero (close fd))
all_close-append_one close [] fd = ground arith
all_close-append_one close (x ∷ fds) fd = ground (arith, all_close-append_one close fds fd)

pub assert_zero-ok : (c : ℤ) → is_zero c ≡ true → assert_zero c ≡ ok tt
assert_zero-ok (pos n) e = rw e
assert_zero-ok (negsuc n) e = cc

pub assert_zero-exited : (c : ℤ) → is_zero c ≡ false → assert_zero c ≡ exited
assert_zero-exited (pos n) e = rw e
assert_zero-exited (negsuc n) e = refl

-- What follows a part that returns or ends the process.
pub if->>= {κ ℓ} :
    {R : Type κ} {S : Type ℓ} (b : Bool) (r : R) (run : Run R) (f : R → Run S)
    → run ≡ (if b then ok r else exited)
    → (run >>= f) ≡ (if b then f r else exited)
if->>= true r run f e = rw e
if->>= false r run f e = rw e

close_tracked-all :
    (close : ℤ → ℤ) (fuel : ℕ) (s : Server) (b : Ptr) (cs : Cells Ptr) (fds : List ℤ)
    → length cs < fuel
    → Linked s.nodes b cs null
    → Tracks s.ops cs fds
    → (s' : Server) × (close_tracked close fuel s (first cs null)
        ≡ (if all_close close fds then ok s' else exited))
      × Closed s s' cs fds
unfolding close_tracked con_of free_op
close_tracked-all close zero s b cs fds k l tracked = absurd (omega arith)
close_tracked-all close (suc fuel) s b [] [] k l tracked = (
  s,
  refl,
  record { closed = sym (append-nil s.closed); freed = tt; no_node = λ q e. e; no_op = λ q e. e },
)
close_tracked-all close (suc fuel) s b [] (x ∷ fds) k l tracked = absurd (omega (arith, tracked))
close_tracked-all close (suc fuel) s b (x ∷ cs) [] k l tracked = absurd (omega (arith, tracked))
close_tracked-all close (suc fuel) s b ((t, p) ∷ cs) (fd ∷ fds) k (ne, e, out, l) (c, tracked) =
    let s1 = record s {
      closed = s.closed ++ (c.con.fd ∷ []);
      ops = write_op s.ops p none;
      nodes = write s.nodes t none;
    } in
    let (s', ran, done) =
      close_tracked-all close fuel s1 t cs fds (omega arith)
        (Linked-frame s.nodes s1.nodes t cs null
          (λ q i. write-other s.nodes t q none (has_other q t cs i out)) l)
        (Tracks-frame s.ops t p fd cs fds c out tracked) in
    let node_read = load-ok s.nodes t (node p (first cs null) b) ne e in
    let op_read = load_op-ok s p (client_op c.kind c.con t) c.ne c.here in
    (
      s',
      elim (Bool-cases (is_zero (close fd))) [
        | inl closes ↦ simp (
          not_null t ne,
          not_null p c.ne,
          node_read,
          op_read,
          closes,
          assert_zero-ok (close c.con.fd) (ap (λ f. is_zero (close f)) c.at ∙ closes),
          c.here,
          free-ok s.nodes t (node p (first cs null) b) ne e,
          ran,
        )
        | inr fails ↦ simp (
          not_null t ne,
          node_read,
          op_read,
          fails,
          assert_zero-exited (close c.con.fd) (ap (λ f. is_zero (close f)) c.at ∙ fails),
        )
      ],
      record {
        closed = done.closed ∙ rw c.at (append_assoc s.closed (fd ∷ []) fds);
        freed = (
          done.no_node t (unfold write in rw (eq_self t)),
          done.no_op p (unfold write_op in rw (eq_self p)),
          done.freed,
        );
        no_node = λ q g. done.no_node q (unfold write in ground arith);
        no_op = λ q g. done.no_op q (unfold write_op in ground arith);
      },
    )

-- The clean-up closes the descriptor of every client in the tracker, in the order of their arrival,
-- frees every operation and every tracker node, allocates nothing, and leaves the tracker empty, if
-- each of those calls of `close` succeeds; else the process exits. One round more than there are
-- clients is fuel enough.
pub do_service_loop_cleanup-all :
    (close : ℤ → ℤ) (fuel : ℕ) (s : Server) (cs : Cells Ptr) (fds : List ℤ)
    → length cs < fuel
    → IsList s.tracker s.nodes cs
    → Tracks s.ops cs fds
    → (s' : Server) × (do_service_loop_cleanup close fuel s
        ≡ (if all_close close fds then ok s' else exited))
      × (s'.closed ≡ s.closed ++ fds)
      × AllFreed s'.nodes s'.ops cs
      × ((q : Ptr) → s.nodes q ≡ none → s'.nodes q ≡ none)
      × ((q : Ptr) → s.ops q ≡ none → s'.ops q ≡ none)
      × (s'.tracker ≡ ends null null)
unfolding do_service_loop_cleanup
do_service_loop_cleanup-all close fuel s cs fds k il tracked =
    let (s', ran, done) = close_tracked-all close fuel s null cs fds k il.chain tracked in
    (
      record s' { tracker = ends null null },
      if->>= (all_close close fds) s' (close_tracked close fuel s s.tracker.head) _
          (ap (λ t. close_tracked close fuel s t) il.head ∙ ran),
      done.closed,
      done.freed,
      done.no_node,
      done.no_op,
      refl,
    )
