-- ===== src/Uring/Measured/Erased.antt =====
-- The io_uring server that measures and the one that does not, side by side.
use linux_modern_io_multiple.Prelude.{ℕ, ◌≡◌, refl, ltb, ◌==◌}
use linux_modern_io_multiple.Prelude.Int.{ℤ, pos, eqb_ℤ}
use linux_modern_io_multiple.Prelude.Run.{Run, Yields, assert_nonn}
use linux_modern_io_multiple.Prelude.Simulation.{
  run_map, Simulates, Simulates-ok, Simulates-exited, Simulates-bind, Simulates-lift, Simulates-if,
  Simulates-chain,
}
use linux_modern_io_multiple.Links.{Ptr}
use linux_modern_io_multiple.Benchmark.{sb_requests_performed}
use linux_modern_io_multiple.Benchmark.Measuring.{
  CanMeasure, sb_record_event-CanMeasure, counted-CanMeasure, connected-CanMeasure,
  started-CanMeasure,
}
use linux_modern_io_multiple.Benchmark.Saved.{Event}
use linux_modern_io_multiple.Uring.Ring.{
  OpType, accepted_connection, close_connection, recv_from_client, send_to_client, timer_expired,
  Cqe,
}
use linux_modern_io_multiple.Uring.Server.{
  Server, Allocated, load_op, store_op, con_of, submit, etime, sending, receiving,
  handle as plain_handle, handle_new_client as plain_new_client,
  handle_cqe_accept as plain_cqe_accept, handle_cqe_close as plain_cqe_close,
  handle_cqe_recv as plain_cqe_recv, handle_cqe_send as plain_cqe_send,
  handle_cqe_timer as plain_cqe_timer, service_cqe_events as plain_service,
}
use linux_modern_io_multiple.Uring.Measured.{
  Measured, Clock, with_server, handle_new_client, handle_cqe_accept, handle_cqe_recv,
  handle_cqe_send, handle_cqe_timer, handle, service_cqe_events,
}

-- The number of SQEs and the server, without its measurements.
abbrev pub erased : ℕ × Measured → ℕ × Server
erased (k, m) = (k, m.server)

abbrev pub Recordable : ℕ × Measured → Type 0
Recordable (k, m) = CanMeasure m.bench

abbrev SameAs : Run (ℕ × Measured) → Run (ℕ × Server) → Type 0
SameAs = Simulates erased Recordable

module _ (n : ℕ) (m : Measured) (can : CanMeasure m.bench) (p : Ptr) (res : ℤ) (a : Allocated)
    (clock : Clock) where
  kept-SameAs : (run : Run (ℕ × Server)) → SameAs (with_server m run) run
  kept-SameAs run = Simulates-lift run _ (λ x. refl) (λ x. can)

  new_client-SameAs :
      (socket : ℤ)
      → Simulates
          (λ (m' : Measured). m'.server)
          (λ m'. CanMeasure m'.bench)
          (handle_new_client n m socket a)
          (plain_new_client n m.server socket a)
  unfolding handle_new_client
  new_client-SameAs socket =
      Simulates-lift (plain_new_client n m.server socket a) _ (λ s. refl)
        (λ s. connected-CanMeasure m.bench can)

  accept-SameAs : SameAs (handle_cqe_accept n m p res a) (plain_cqe_accept n m.server p res a)
  unfolding handle_cqe_accept plain_cqe_accept
  accept-SameAs = Simulates-bind (assert_nonn res) _ _ (λ fd.
      Simulates-chain (handle_new_client n m (pos fd) a) (plain_new_client n m.server (pos fd) a) _
        _ (new_client-SameAs (pos fd))
        (λ m' can'.
          Simulates-bind (submit n m'.server p) _ _
            (λ s. Simulates-ok (2, record m' { server = s }) (2, s) refl can')))

  recv-SameAs : SameAs (handle_cqe_recv n m p res clock) (plain_cqe_recv n m.server p res)
  unfolding handle_cqe_recv plain_cqe_recv
  recv-SameAs = Simulates-bind (load_op m.server p) _ _ (λ op.
      Simulates-bind (con_of op.info) _ _ (λ con. Simulates-bind (assert_nonn res) _ _ (λ k.
        Simulates-if (k == 0) _ _ _ _ (kept-SameAs _) (
          Simulates-if (ltb n k) _ _ _ _ Simulates-exited (
            Simulates-if (ltb k n) _ _ _ _ Simulates-exited (
              Simulates-bind (submit n (store_op m.server p (sending n op con k)) p) _ _
                (λ s. Simulates-ok _ (1, s) refl can)))))))

  send-SameAs : SameAs (handle_cqe_send n m p res clock) (plain_cqe_send n m.server p res)
  unfolding handle_cqe_send plain_cqe_send
  send-SameAs =
      let event : Event = record {
        start = m.bench_start_send p;
        end = clock.now;
        now = clock.stopped;
      } in
      let (bench, recorded, after) = sb_record_event-CanMeasure m.bench event can in
      Simulates-bind (load_op m.server p) _ _ (λ op. Simulates-bind (con_of op.info) _ _ (λ con.
        Simulates-bind (assert_nonn res) _ _ (λ k. Simulates-if (ltb k n) _ _ _ _ Simulates-exited (
          rw recorded (
            Simulates-bind (submit n (store_op m.server p (receiving n op con)) p) _ _
              (λ s. Simulates-ok (1, record m { server = s; bench = bench }) (1, s) refl after))))))

  timer-SameAs : SameAs (handle_cqe_timer n m p res clock) (plain_cqe_timer m.server p res)
  unfolding handle_cqe_timer plain_cqe_timer
  timer-SameAs =
      Simulates-if (eqb_ℤ res etime) _ _ _ _
        (Simulates-ok _ (0, m.server) refl (started-CanMeasure clock.now m.bench can))
        Simulates-exited

  handle-SameAs :
      (kind : OpType)
      → SameAs (handle n m p res a clock kind) (plain_handle n m.server p res a kind)
  unfolding handle plain_handle
  handle-SameAs accepted_connection = accept-SameAs
  handle-SameAs close_connection = kept-SameAs (plain_cqe_close m.server p res)
  handle-SameAs recv_from_client = recv-SameAs
  handle-SameAs send_to_client = send-SameAs
  handle-SameAs timer_expired = timer-SameAs

pub service-SameAs :
    (n : ℕ) (m : Measured) (cqe : Cqe) (a : Allocated) (clock : Clock)
    → CanMeasure m.bench
    → SameAs (service_cqe_events n m cqe a clock) (plain_service n m.server cqe a)
unfolding service_cqe_events plain_service
service-SameAs n m cqe a clock can = Simulates-bind (load_op m.server cqe.user_data) _ _ (λ op.
    handle-SameAs n (record m { bench = sb_requests_performed m.bench (pos 1) })
      (counted-CanMeasure m.bench (pos 1) can) cqe.user_data cqe.res a clock op.op)

-- The build that measures serves each completion as the build without measuring does: with the same
-- outcome, whether it returns, leaves the process or faults, the same number of SQEs, and the same
-- server after it. The measurements can be recorded, and stay so.
pub service_cqe_events-erased :
    (n : ℕ) (m : Measured) (cqe : Cqe) (a : Allocated) (clock : Clock)
    → CanMeasure m.bench
    → (run_map erased (service_cqe_events n m cqe a clock) ≡ plain_service n m.server cqe a)
      × Yields Recordable (service_cqe_events n m cqe a clock)
service_cqe_events-erased n m cqe a clock can =
    let same = service-SameAs n m cqe a clock can in (same.seen, same.keeps)
