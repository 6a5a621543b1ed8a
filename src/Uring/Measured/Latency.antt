-- ===== src/Uring/Measured/Latency.antt =====
-- What the handlers of the build that measures record of an echo.
use linux_modern_io_multiple.Prelude.{
  ℕ, ◌≡◌, ◌≢◌, refl, arith, false, ltb, ◌==◌, [], ◌∷◌, ◌++◌, some, none, Option,
}
use linux_modern_io_multiple.Prelude.Int.{ℤ, pos}
use linux_modern_io_multiple.Prelude.Run.{
  ok, assert_nonn, from_cell, Yields, Yields-bind, Yields-chain, Yields-if, >>=-returned,
}
use linux_modern_io_multiple.Links.{Ptr}
use linux_modern_io_multiple.Links.Chain.{eq_self}
use linux_modern_io_multiple.Time.{Timespec, time_delta, timespec_to_ns}
use linux_modern_io_multiple.Benchmark.{sb_requests_performed}
use linux_modern_io_multiple.Benchmark.Saved.{IsMeasuring, Event, latencies, sb_record_event-append}
use linux_modern_io_multiple.Uring.Ring.{send_to_client, Cqe, IouOp}
use linux_modern_io_multiple.Uring.Server.{
  Server, Allocated, load_op, store_op, write_op, con_of, submit, sending, receiving,
}
use linux_modern_io_multiple.Uring.Server.Frames.{submit-ops}
use linux_modern_io_multiple.Uring.Measured.{
  Measured, Clock, set_start, handle_cqe_recv, handle_cqe_send, handle, service_cqe_events,
}

-- At `p` an echo is under way, whose send began at `t`.
pub record IsSending (m : Measured) (p : Ptr) (t : Timespec) : Type 0 where
  pub op : IouOp
  pub here : m.server.ops p ≡ some op
  pub kind : op.op ≡ send_to_client
  pub began : m.bench_start_send p ≡ t

load_op-some : (s : Server) (p : Ptr) (op : IouOp) → load_op s p ≡ ok op → s.ops p ≡ some op
unfolding load_op
load_op-some s p op e = ground (arith, from_cell-some (s.ops p) op)
  where
    from_cell-some : (c : Option IouOp) (o : IouOp) → from_cell c ≡ ok o → c ≡ some o
    from_cell-some none o e = cc
    from_cell-some (some x) o e = cc

-- The handler of the operation's kind served the completion.
pub handled :
    (n : ℕ) (m : Measured) (cqe : Cqe) (a : Allocated) (clock : Clock) (op : IouOp)
    {r : ℕ × Measured}
    → m.server.ops cqe.user_data ≡ some op
    → service_cqe_events n m cqe a clock ≡ ok r
    → handle n
        (record m { bench = sb_requests_performed m.bench (pos 1) })
        cqe.user_data
        cqe.res
        a
        clock
        op.op
      ≡ ok r
unfolding service_cqe_events
handled n m cqe a clock op here ran =
    let (found, loaded, more) = >>=-returned (load_op m.server cqe.user_data) _ ran in
    let there = load_op-some m.server cqe.user_data found loaded in
    let same : found ≡ op = cc in rw same at more

-- A whole message is received: its send begins.
pub recv-IsSending :
    (n : ℕ) (m : Measured) (p : Ptr) (clock : Clock)
    → n ≢ 0
    → Yields
        (λ ((k, m') : ℕ × Measured). IsSending m' p clock.now)
        (handle_cqe_recv n m p (pos n) clock)
unfolding handle_cqe_recv set_start store_op write_op
recv-IsSending n m p clock some_bytes =
    let miss : (n == 0) ≡ false = ground (arith, some_bytes) in
    let whole : ltb n n ≡ false = ground arith in
    Yields-bind _ (load_op m.server p) _ (λ op. Yields-bind _ (con_of op.info) _ (λ con.
      let send = sending n op con n in
      rw (miss, whole)
        (Yields-chain (λ (s : Server). s.ops ≡ write_op m.server.ops p (some send))
          (λ ((k, m') : ℕ × Measured). IsSending m' p clock.now)
          (submit n (store_op m.server p send) p) _ (submit-ops n (store_op m.server p send) p)
          (λ s e. record {
            op = send;
            here = rw e (rw (eq_self p));
            kind = refl;
            began = rw (eq_self p);
          }))))

-- The send is done: the time since it began is recorded, while the container has room.
pub send-recorded :
    (n : ℕ) (m : Measured) (p : Ptr) (res : ℤ) (clock : Clock)
    → IsMeasuring m.bench
    → (m.bench.event_latency).size ≢ (m.bench.event_latency).capacity
    → Yields
        (λ ((k, m') : ℕ × Measured).
          latencies m'.bench.event_latency
          ≡ latencies m.bench.event_latency
            ++ (timespec_to_ns (time_delta clock.now (m.bench_start_send p)) ∷ []))
        (handle_cqe_send n m p res clock)
unfolding handle_cqe_send
send-recorded n m p res clock measuring room =
    let event : Event = record {
      start = m.bench_start_send p;
      end = clock.now;
      now = clock.stopped;
    } in
    let (bench, recorded, _, appended, _, _) =
      sb_record_event-append m.bench event measuring room in
    Yields-bind _ (load_op m.server p) _ (λ op. Yields-bind _ (con_of op.info) _ (λ con.
      Yields-bind _ (assert_nonn res) _ (λ k. Yields-if _ (ltb k n) _ _ tt (
        rw recorded (
          Yields-bind _ (submit n (store_op m.server p (receiving n op con)) p) _
            (λ s. appended))))))
