-- ===== src/Uring/Measured/Elsewhere.antt =====
-- What the completion of one operation leaves alone, in the build that measures.
use linux_modern_io_multiple.Prelude.{ℕ, ◌≡◌, ◌≢◌, ◌∙◌, refl, ap, arith, false, ltb, ◌==◌}
use linux_modern_io_multiple.Prelude.Int.{ℤ, pos, eqb_ℤ}
use linux_modern_io_multiple.Prelude.Run.{
  Run, ok, assert_nonn, Yields, Yields-bind, Yields-chain, Yields-if, Yields-ok, Yields-weaken,
}
use linux_modern_io_multiple.Links.{Ptr}
use linux_modern_io_multiple.Benchmark.{sb_requests_performed, sb_record_event}
use linux_modern_io_multiple.Uring.Ring.{
  OpType, accepted_connection, close_connection, recv_from_client, send_to_client, timer_expired,
  Cqe, IouOp, info_con,
}
use linux_modern_io_multiple.Uring.Server.{
  Server, Allocated, load_op, store_op, con_of, submit, etime, sending, receiving,
  handle_new_client as plain_new_client, handle_cqe_close as plain_cqe_close,
  prep_close_client_req as plain_close_client_req,
}
use linux_modern_io_multiple.Uring.Server.Frames.{
  KeepsOps, store_op-KeepsOps, submit-ops, handle_new_client-KeepsOps, handle_cqe_close-KeepsOps,
  prep_close_client_req-KeepsOps,
}
use linux_modern_io_multiple.Uring.Measured.{
  Measured, Clock, set_start, with_server, handle_new_client, handle_cqe_accept, handle_cqe_recv,
  handle_cqe_send, handle_cqe_timer, handle, service_cqe_events,
}

-- From `m` to `m'`, the operations elsewhere than at `p` and `r`, and when their sends began, are as
-- they were.
abbrev pub KeepsOthers : Measured → Ptr → Ptr → Measured → Type 0
KeepsOthers m p r m' =
    (q : Ptr)
    → q ≢ p
    → q ≢ r
    → (m'.server.ops q ≡ m.server.ops q) × (m'.bench_start_send q ≡ m.bench_start_send q)

with_server-KeepsOthers :
    (m : Measured) (p r : Ptr) (run : Run (ℕ × Server))
    → Yields (λ ((k, s') : ℕ × Server). KeepsOps m.server p r s') run
    → Yields (λ ((k, m') : ℕ × Measured). KeepsOthers m p r m') (with_server m run)
with_server-KeepsOthers m p r run y =
    Yields-chain (λ ((k, s') : ℕ × Server). KeepsOps m.server p r s')
      (λ ((k, m') : ℕ × Measured). KeepsOthers m p r m') run _ y
      (λ x keeps q other other_r. (keeps q other other_r, refl))

-- The operation at `p` is written and submitted; nothing else is.
resubmitted :
    (n : ℕ) (s : Server) (p r : Ptr) (op : IouOp)
    → Yields (KeepsOps s p r) (submit n (store_op s p op) p)
resubmitted n s p r op =
    Yields-weaken _ _ (submit n (store_op s p op) p) (submit-ops n (store_op s p op) p)
      (λ s' e. store_op-KeepsOps s p r op s' e)

module _ (n : ℕ) (m : Measured) (p : Ptr) (res : ℤ) (a : Allocated) (clock : Clock) where
  abbrev Kept : ℕ × Measured → Type 0
  Kept (k, m') = KeepsOthers m p a.op_ptr m'

  new_client-KeepsOthers :
      (socket : ℤ) → Yields (KeepsOthers m p a.op_ptr) (handle_new_client n m socket a)
  unfolding handle_new_client set_start
  new_client-KeepsOthers socket =
      Yields-chain _ _ (plain_new_client n m.server socket a) _
        (handle_new_client-KeepsOps n m.server p socket a)
        (λ s keeps q other other_r. (keeps q other other_r, ground arith))

  accept-Kept : Yields Kept (handle_cqe_accept n m p res a)
  unfolding handle_cqe_accept
  accept-Kept = Yields-bind Kept (assert_nonn res) _ (λ fd.
      Yields-chain (KeepsOthers m p a.op_ptr) Kept (handle_new_client n m (pos fd) a) _
        (new_client-KeepsOthers (pos fd))
        (λ m1 keeps.
          Yields-chain (λ (s : Server). s.ops ≡ m1.server.ops) Kept (submit n m1.server p) _
            (submit-ops n m1.server p)
            (λ s e q other other_r.
              (ap (λ ops. ops q) e ∙ (keeps q other other_r).0, (keeps q other other_r).1))))

  recv-Kept : Yields Kept (handle_cqe_recv n m p res clock)
  unfolding handle_cqe_recv set_start
  recv-Kept = Yields-bind Kept (load_op m.server p) _ (λ op.
      Yields-bind Kept (con_of op.info) _ (λ con. Yields-bind Kept (assert_nonn res) _ (λ k.
        let idle = record op { info = info_con (record con { busy = false }) } in
        let s1 = store_op m.server p idle in
        Yields-if Kept (k == 0) _ _
          (with_server-KeepsOthers m p a.op_ptr (plain_close_client_req n s1 p) (
            Yields-weaken (λ ((k, s') : ℕ × Server). KeepsOps s1 p a.op_ptr s')
              (λ ((k, s') : ℕ × Server). KeepsOps m.server p a.op_ptr s')
              (plain_close_client_req n s1 p) (prep_close_client_req-KeepsOps n s1 p a.op_ptr)
              (λ x keeps q other other_r.
                keeps q other other_r
                ∙ store_op-KeepsOps m.server p a.op_ptr idle s1 refl q other other_r)))
          (Yields-if Kept (ltb n k) _ _ tt (
            Yields-if Kept (ltb k n) _ _ tt (
              Yields-chain (KeepsOps m.server p a.op_ptr) Kept
                (submit n (store_op m.server p (sending n op con k)) p) _
                (resubmitted n m.server p a.op_ptr (sending n op con k))
                (λ s keeps q other other_r. (keeps q other other_r, ground arith))))))))

  send-Kept : Yields Kept (handle_cqe_send n m p res clock)
  unfolding handle_cqe_send
  send-Kept = Yields-bind Kept (load_op m.server p) _ (λ op.
      Yields-bind Kept (con_of op.info) _ (λ con. Yields-bind Kept (assert_nonn res) _ (λ k.
        Yields-if Kept (ltb k n) _ _ tt (
          Yields-bind Kept (sb_record_event clock.stopped m.bench (m.bench_start_send p) clock.now)
            _
            (λ bench.
              Yields-chain (KeepsOps m.server p a.op_ptr) Kept
                (submit n (store_op m.server p (receiving n op con)) p) _
                (resubmitted n m.server p a.op_ptr (receiving n op con))
                (λ s keeps q other other_r. (keeps q other other_r, refl)))))))

  timer-Kept : Yields Kept (handle_cqe_timer n m p res clock)
  unfolding handle_cqe_timer
  timer-Kept = Yields-if Kept (eqb_ℤ res etime) _ _ (λ q other other_r. (refl, refl)) tt

  handle-Kept : (kind : OpType) → Yields Kept (handle n m p res a clock kind)
  unfolding handle
  handle-Kept accepted_connection = accept-Kept
  handle-Kept close_connection =
      with_server-KeepsOthers m p a.op_ptr (plain_cqe_close m.server p res)
        (handle_cqe_close-KeepsOps m.server p a.op_ptr res)
  handle-Kept recv_from_client = recv-Kept
  handle-Kept send_to_client = send-Kept
  handle-Kept timer_expired = timer-Kept

-- A completion that is served leaves the other operations alone, and when their sends began.
pub service_cqe_events-KeepsOthers :
    (n : ℕ) (m : Measured) (cqe : Cqe) (a : Allocated) (clock : Clock) (k : ℕ) (m' : Measured)
    → service_cqe_events n m cqe a clock ≡ ok (k, m')
    → KeepsOthers m cqe.user_data a.op_ptr m'
unfolding service_cqe_events
service_cqe_events-KeepsOthers n m cqe a clock k m' ran =
    let counted = record m { bench = sb_requests_performed m.bench (pos 1) } in
    Yields-ok (λ ((k, m') : ℕ × Measured). KeepsOthers m cqe.user_data a.op_ptr m') _ (k, m') ran
      (Yields-bind _ (load_op m.server cqe.user_data) _
        (λ op. handle-Kept n counted cqe.user_data cqe.res a clock op.op))
