-- ===== src/Uring/Loop/Moves.antt =====
-- What the kernel does between two turns.
use linux_modern_io_multiple.Prelude.{
  ℕ, ◌+◌, ◌-◌, ◌<◌, ◌≡◌, ◌≢◌, ◌∙◌, refl, sym, subst, ap, arith, List, [], ◌∷◌, ◌++◌, length,
  length-append, some, none, ℕ_discrete, ◌⊎◌, inl, inr, true, false, get_elem?, bit_and,
}
use mathlib.Core.Bool.{false≢true}
use linux_modern_io_multiple.Prelude.Int.{ℤ}
use linux_modern_io_multiple.Links.{Ptr}
use linux_modern_io_multiple.Links.Chain.{eq_self}
use linux_modern_io_multiple.Uring.Ring.{Iou, Sqe, Cqe, ClientCon, sub_u32, recv_from_client}
use linux_modern_io_multiple.Uring.Ring.Completion.{
  IsPosted-same, posts, posts-IsPosted, posted_lem,
}
use linux_modern_io_multiple.Uring.Ring.Kernel.{took, took-IsQueue}
use linux_modern_io_multiple.Uring.Ring.Submission.{IsQueue, IsQueue-same}
use linux_modern_io_multiple.Uring.Server.{store_op, write_op}
use linux_modern_io_multiple.Uring.Server.Echo.{client_op}
use linux_modern_io_multiple.Uring.Setup.{has_flag, setup_sqpoll}
use linux_modern_io_multiple.Uring.Ring.Masking.{position}
use linux_modern_io_multiple.Uring.Loop.{World, iou_of, with_iou}
use linux_modern_io_multiple.Uring.Loop.Clients.{
  IsClient, IsClient-stored, IsClient-not_accept, AreClients-along,
}
use linux_modern_io_multiple.Uring.Loop.Pending.{
  count, count_sqes, count_cqes, count_clients, hit, count-append, count_cqes-append,
}
use linux_modern_io_multiple.Uring.Loop.Reach.{IsServing}

-- The SQE that the kernel reads is the oldest of the queue.
taken_front :
    (iou : Iou) (i : ℕ) (x y : Sqe) (ys : List Sqe)
    → IsQueue iou (y ∷ ys)
    → get_elem? iou.sq_array (bit_and iou.sq_head iou.sq_mask) ≡ some i
    → get_elem? iou.sqes i ≡ some x
    → x ≡ y
taken_front iou i x y ys q e f =
    let here : position iou.sq_head 0 ≡ iou.sq_head = omega (arith, q.head) in
    let at : get_elem? iou.sq_array (bit_and iou.sq_head iou.sq_mask)
        ≡ some (bit_and iou.sq_head iou.sq_mask) =
      subst (λ t. get_elem? iou.sq_array (bit_and t iou.sq_mask) ≡ some (bit_and t iou.sq_mask))
        here q.queued.0 in
    let (g, _) = took-IsQueue iou y ys q in
    let same : bit_and iou.sq_head iou.sq_mask ≡ i = cc in
    let there = subst (λ t. get_elem? iou.sqes t ≡ some y) same g in cc

module _ (setup_flags : ℕ) (acc : Ptr) (ls : ℤ) where
  pub takes-IsServing :
      (w : World) (i : ℕ) (x : Sqe) (xs : List Sqe)
      → (alive : IsServing setup_flags acc ls w) → alive.sqes ≡ xs
      → (iou_of w).sq_head ≢ (iou_of w).sq_tail
      → get_elem? (iou_of w).sq_array (bit_and (iou_of w).sq_head (iou_of w).sq_mask) ≡ some i
      → get_elem? (iou_of w).sqes i ≡ some x
      → (has_flag setup_flags setup_sqpoll ≡ true) ⊎ (0 < w.asked)
      → IsServing setup_flags acc ls (record (with_iou w (took (iou_of w))) {
        asked = w.asked - 1;
        flight = x.user_data ∷ w.flight;
      })
  unfolding took
  takes-IsServing w i x [] alive same ne e f mode =
      let q = subst (λ l. IsQueue (iou_of w) l) same alive.alive.queue in
      absurd (ne (omega (arith, q.tail, q.head)))
  takes-IsServing w i x (y ∷ ys) alive same ne e f mode =
      let q = subst (λ l. IsQueue (iou_of w) l) same alive.alive.queue in
      let front = taken_front (iou_of w) i x y ys q e f in
      let (_, q') = took-IsQueue (iou_of w) y ys q in
      record {
        sqes = ys;
        cqes = alive.cqes;
        cells = alive.cells;
        alive = record {
          queue = q';
          posted =
              IsPosted-same (took (iou_of w)) (iou_of w) alive.cqes (refl, refl, refl, refl)
                alive.alive.posted;
          tracked = alive.alive.tracked;
          clients = alive.alive.clients;
          nonnull = alive.alive.nonnull;
          addrlen = alive.alive.addrlen;
          accepting = alive.alive.accepting;
          pending = λ p. pending p front;
          total = omega (arith, alive.alive.total, ap length same);
          ops_owned = alive.alive.ops_owned;
          nodes_owned = alive.alive.nodes_owned;
        };
        counted = λ off. asked off mode;
      }
    where
      pending :
          (p : Ptr)
          → x ≡ y
          → count_sqes p ys + (hit p x.user_data + count p w.flight + count_cqes p alive.cqes)
            ≡ hit p acc + count_clients p alive.cells
      pending p front =
          let user : hit p x.user_data ≡ hit p y.user_data =
            ap (λ (z : Sqe). hit p z.user_data) front in
          omega (arith, alive.alive.pending p, ap (count_sqes p) same, user)

      asked :
          has_flag setup_flags setup_sqpoll ≡ false
          → (has_flag setup_flags setup_sqpoll ≡ true) ⊎ (0 < w.asked)
          → w.loop.to_submit + (w.asked - 1) ≡ length ys
      asked off (inl on) = absurd (false≢true (sym off ∙ on))
      asked off (inr some_asked) = omega (arith, alive.counted off, ap length same)

  pub receives-IsServing :
      (w : World) (p t : Ptr) (con : ClientCon) (bytes : List ℕ)
      → IsServing setup_flags acc ls w
      → w.loop.server.ops p ≡ some (client_op recv_from_client con t)
      → IsServing setup_flags acc ls (record w {
        loop = record w.loop {
          server =
              store_op w.loop.server p (client_op recv_from_client (record con { buf = bytes }) t);
        };
      })
  unfolding store_op write_op
  receives-IsServing w p t con bytes i e =
      let s = w.loop.server in
      let op = client_op recv_from_client (record con { buf = bytes }) t in
      let here : write_op s.ops p (some op) p ≡ some op = rw (eq_self p) in
      record {
        sqes = i.sqes;
        cqes = i.cqes;
        cells = i.cells;
        alive = record {
          queue = i.alive.queue;
          posted = i.alive.posted;
          tracked = i.alive.tracked;
          clients =
              AreClients-along s.ops (write_op s.ops p (some op)) i.cells
                (λ u q _.
                  IsClient-stored s.ops (write_op s.ops p (some op)) t p u q
                    (client_op recv_from_client con t) e refl
                    (IsClient.receives (record con { buf = bytes }) here) (λ r other. ground arith))
                i.alive.clients;
          nonnull = i.alive.nonnull;
          addrlen = i.alive.addrlen;
          accepting =
              let apart =
                IsClient-not_accept s.ops t p acc ls i.alive.addrlen (IsClient.receives con e)
                  i.alive.accepting in
              ground (arith, apart, i.alive.accepting);
          pending = i.alive.pending;
          total = i.alive.total;
          ops_owned = λ q free. allocated q free;
          nodes_owned = i.alive.nodes_owned;
        };
        counted = i.counted;
      }
    where
      allocated :
          (q : Ptr)
          → hit q acc + count_clients q i.cells ≡ 0
          → write_op w.loop.server.ops p
              (some (client_op recv_from_client (record con { buf = bytes }) t))
              q
            ≡ none
      allocated q free =
          let gone = i.alive.ops_owned q free in
          elim (ℕ_discrete q p) [
            | yes same ↦ let no = subst (λ r. w.loop.server.ops r ≡ none) same gone in cc
            | no other ↦ ground arith
          ]

  pub completes-IsServing :
      (w : World) (us vs : List Ptr) (p : Ptr) (res : ℤ)
      → IsServing setup_flags acc ls w
      → w.flight ≡ us ++ (p ∷ vs)
      → sub_u32 (iou_of w).cq_tail (iou_of w).cq_head < length (iou_of w).cqes
      → IsServing setup_flags acc ls
          (record (with_iou w (posts (iou_of w) (record { user_data = p; res = res }))) {
            flight = us ++ vs;
          })
  unfolding posts
  completes-IsServing w us vs p res i split room =
      let cqe : Cqe = record { user_data = p; res = res } in
      record {
        sqes = i.sqes;
        cqes = i.cqes ++ (cqe ∷ []);
        cells = i.cells;
        alive = record {
          queue =
              IsQueue-same (posts (iou_of w) cqe) (iou_of w) i.sqes
                (refl, refl, refl, refl, refl, refl) i.alive.queue;
          posted =
              posts-IsPosted (iou_of w) cqe i.cqes i.alive.posted
                (rw (← posted_lem (iou_of w) i.cqes i.alive.posted) room);
          tracked = i.alive.tracked;
          clients = i.alive.clients;
          nonnull = i.alive.nonnull;
          addrlen = i.alive.addrlen;
          accepting = i.alive.accepting;
          pending = λ q. omega (
            arith,
            i.alive.pending q,
            ap (count q) split,
            count-append q us (p ∷ vs),
            count-append q us vs,
            count_cqes-append q i.cqes (cqe ∷ []),
          );
          total = omega (
            arith,
            i.alive.total,
            ap length split,
            length-append us (p ∷ vs),
            length-append us vs,
            length-append i.cqes (cqe ∷ []),
          );
          ops_owned = i.alive.ops_owned;
          nodes_owned = i.alive.nodes_owned;
        };
        counted = i.counted;
      }
