-- ===== src/Uring/Loop/Progress.antt =====
-- What a turn of the loop asks the kernel for, and what it makes of an accepted connection and of a
-- message.
use linux_modern_io_multiple.Prelude.{
  ℕ, suc, ◌+◌, ◌<◌, ◌≤◌, ◌≡◌, ◌≢◌, inl, inr, refl, subst, ap, arith, List, [], ◌∷◌, ◌++◌, length,
  some, true, false,
}
use linux_modern_io_multiple.Prelude.Int.{ℤ, pos}
use linux_modern_io_multiple.Prelude.Run.{ok}
use linux_modern_io_multiple.Links.{Ptr, null}
use linux_modern_io_multiple.Links.Chain.{Cells, IsList}
use linux_modern_io_multiple.Uring.Ring.{Sqe, Cqe, ClientCon, recv_from_client, send_to_client}
use linux_modern_io_multiple.Uring.Ring.Completion.{
  iou_get_cqe-none, iou_get_cqe-some, consumed, posted_lem, IsPosted,
}
use linux_modern_io_multiple.Uring.Server.Echo.{
  client_op, cqe_of, send_sqe, service_cqe_events-echo,
}
use linux_modern_io_multiple.Uring.Setup.{has_flag, setup_sqpoll}
use linux_modern_io_multiple.Uring.Setup.Entering.{EnterCall}
use linux_modern_io_multiple.Uring.Loop.{Loop, Answers, World, iou_of, react, turn, asked_by}
use linux_modern_io_multiple.Uring.Loop.Reach.{IsServing, iou_enter_or_wake-asks}
use linux_modern_io_multiple.Uring.Loop.Stored.{Alive}
use linux_modern_io_multiple.Uring.Ring.Submission.{IsQueue, IsQueue-same}

module _ (n setup_flags : ℕ) (acc : Ptr) (ls : ℤ) (w : World) (a : Answers) where
  -- Without the kernel's polling thread, in a state that `IsServing` describes and in which the kernel
  -- has taken every SQE that earlier calls asked it to take: a turn that finds no CQE and returns asks
  -- the kernel for all the SQEs in the submission ring, as many as there are. They and those that the
  -- kernel holds already are one for each client that is tracked and one that accepts; so, if the
  -- kernel takes what this call asks for, there is an operation to wait for. The count is 0 then.
  pub turn-waits :
      (calls : List EnterCall) (loop : Loop)
      → has_flag setup_flags setup_sqpoll ≡ false
      → IsServing setup_flags acc ls w
      → w.asked ≡ 0
      → (iou_of w).cq_head ≡ (iou_of w).cq_tail
      → turn n setup_flags w.loop a ≡ ok (calls, loop)
      → (xs : List Sqe) × (cs : Cells Ptr) × IsQueue loop.server.iou xs
        × IsList loop.server.tracker loop.server.nodes cs
        × (asked_by calls ≡ length xs)
        × (length xs + length w.flight ≡ suc (length cs))
        × (loop.to_submit ≡ 0)
  unfolding turn react
  turn-waits calls loop off i taken drained ran = idle i.cqes refl
    where
      idle :
          (ps : List Cqe)
          → i.cqes ≡ ps
          → (xs : List Sqe) × (cs : Cells Ptr) × IsQueue loop.server.iou xs
            × IsList loop.server.tracker loop.server.nodes cs
            × (asked_by calls ≡ length xs)
            × (length xs + length w.flight ≡ suc (length cs))
            × (loop.to_submit ≡ 0)
      idle (x ∷ ps) e = absurd (
          omega (
            arith,
            posted_lem (iou_of w) i.cqes i.alive.posted,
            ap length e,
            drained,
            i.alive.posted.head,
          ))
      idle [] e =
          let posted = subst (λ l. IsPosted (iou_of w) l) e i.alive.posted in
          let empty = iou_get_cqe-none (iou_of w) posted in
          elim (iou_enter_or_wake-asks setup_flags a.sq_flags w.loop.to_submit a.rc) [
            | inl gone ↦ let no = simp (empty, gone) at ran in cc
            | inr (made, entered, asks) ↦
                let after : (made, record w.loop { to_submit = 0 }) ≡ (calls, loop) =
                  (let k = simp (empty, entered) at ran in cc) in
                subst
                  (λ (r : List EnterCall × Loop).
                    (xs : List Sqe) × (cs : Cells Ptr) × IsQueue (r.1).server.iou xs
                    × IsList (r.1).server.tracker (r.1).server.nodes cs
                    × (asked_by r.0 ≡ length xs)
                    × (length xs + length w.flight ≡ suc (length cs))
                    × ((r.1).to_submit ≡ 0))
                  after
                  (
                    i.sqes,
                    i.cells,
                    i.alive.queue,
                    i.alive.tracked,
                    omega (arith, asks off, i.counted off, taken),
                    omega (arith, i.alive.total, ap length e),
                    refl,
                  )
          ]

  -- The CQE that is taken, and the room that is left.
  taken_room :
      (xs : List Sqe) (x : Cqe) (ps : List Cqe) (cs : Cells Ptr)
      → Alive acc ls w.loop.server w.flight xs (x ∷ ps) cs
      → length xs ≤ length cs
  taken_room xs x ps cs alive = omega (arith, alive.total)

  -- In a state that `Alive` describes, where the ring has more SQEs than there are clients: a
  -- message of the full size, which is not zero, whose CQE is the next is sent back: behind the SQEs
  -- that the kernel has yet to take, which are those of before, comes the one that sends the whole of
  -- the buffer that it was read into, on the connection's descriptor. The turn counts one SQE more,
  -- the operation is that send with the buffer untouched, and no other operation is touched, nor the
  -- tracker.
  pub turn-echoes :
      (xs : List Sqe) (p t : Ptr) (con : ClientCon) (ps : List Cqe) (cs : Cells Ptr)
      → Alive acc ls w.loop.server w.flight xs (cqe_of p (pos n) ∷ ps) cs
      → length cs < (iou_of w).ring_size
      → 0 < n
      → p ≢ null
      → w.loop.server.ops p ≡ some (client_op recv_from_client con t)
      → (loop : Loop) × (turn n setup_flags w.loop a ≡ ok ([], loop))
        × (loop.server.ops p
            ≡ some (client_op send_to_client (record con { busy = true; buf_send_len = n }) t))
        × (loop.to_submit ≡ w.loop.to_submit + 1)
        × IsQueue loop.server.iou (xs ++ (send_sqe n p con ∷ []))
        × ((q : Ptr) → q ≢ p → loop.server.ops q ≡ w.loop.server.ops q)
        × (loop.server.tracker ≡ w.loop.server.tracker)
        × (loop.server.nodes ≡ w.loop.server.nodes)
  unfolding turn react
  turn-echoes xs p t con ps cs alive room some_bytes ne e =
      let (got, _) = iou_get_cqe-some (iou_of w) (cqe_of p (pos n)) ps alive.posted in
      let s = record w.loop.server { iou = consumed (iou_of w) } in
      let q = IsQueue-same s.iou (iou_of w) xs (refl, refl, refl, refl, refl, refl) alive.queue in
      let (s', ran, next) =
        service_cqe_events-echo n s xs p con t a.allocated q
          (omega (arith, room, taken_room xs (cqe_of p (pos n)) ps cs alive)) ne some_bytes e in
      (
        record { server = s'; to_submit = w.loop.to_submit + 1 },
        simp (got, ran),
        next.here,
        refl,
        next.queue,
        next.others,
        next.tracker,
        next.nodes,
      )
