-- ===== src/Uring/Measured.antt =====
-- code/c/server/io_uring/main.c in the build with server-side benchmarking, which measures the latency
-- too: the handlers of Uring.Server with what `#if DO_SERVER_SIDE_BENCHMARKING == 1` adds to them.
-- The clock's answers are arguments.
pub mod Echoed
pub mod Elsewhere
pub mod Erased
pub mod Latency
pub mod Requests
pub mod Turns
use linux_modern_io_multiple.Prelude.{
  ℕ, ◌+◌, List, [], Option, none, some, false, ltb, ◌==◌, if◌then◌else◌,
}
use linux_modern_io_multiple.Prelude.Int.{ℤ, pos, eqb_ℤ}
use linux_modern_io_multiple.Prelude.Run.{Run, ok, exited, ◌>>=◌, assert_nonn}
use linux_modern_io_multiple.Links.{Ptr}
use linux_modern_io_multiple.Time.{Timespec}
use linux_modern_io_multiple.Benchmark.{
  ServerBench, zero_time, sb_start, sb_client_connected, sb_requests_performed, sb_record_event,
}
use linux_modern_io_multiple.Uring.Ring.{
  OpType, accepted_connection, close_connection, recv_from_client, send_to_client, timer_expired,
  Cqe, info_con, iou_get_cqe,
}
use linux_modern_io_multiple.Uring.Server.{
  Server, Allocated, load_op, store_op, con_of, submit, etime, sending, receiving,
  handle_new_client as plain_new_client, handle_cqe_close as plain_cqe_close,
  prep_close_client_req as plain_close_client_req,
}
use linux_modern_io_multiple.Uring.Setup.Entering.{EnterCall, iou_enter_or_wake}
use linux_modern_io_multiple.Uring.Loop.{Answers}

-- The server, the member `bench_start_send` of each connection, and `bench`.
pub record Measured : Type 0 where
  pub server : Server
  pub bench_start_send : Ptr → Timespec
  pub bench : ServerBench

-- What the clock shows where the handler asks for it, and in `sb_stop` where a record no longer fits.
pub record Clock : Type 0 where
  pub now : Timespec
  pub stopped : Timespec

unfoldable pub set_start : (Ptr → Timespec) → Ptr → Timespec → Ptr → Timespec
set_start starts p t q = if q == p then t else starts q

-- The rest of the code keeps the measurements.
abbrev pub with_server : Measured → Run (ℕ × Server) → Run (ℕ × Measured)
with_server m run = run >>= λ (k, s). ok (k, record m { server = s })

module _ (n : ℕ) where
  -- The member is 0 in the memory that `calloc` gives.
  unfoldable pub handle_new_client : Measured → ℤ → Allocated → Run Measured
  unfolding set_start
  handle_new_client m socket a = plain_new_client n m.server socket a >>= λ s. ok (record {
    server = s;
    bench_start_send = set_start m.bench_start_send a.op_ptr zero_time;
    bench = sb_client_connected m.bench;
  })

  unfoldable pub handle_cqe_accept : Measured → Ptr → ℤ → Allocated → Run (ℕ × Measured)
  unfolding handle_new_client
  handle_cqe_accept m p result a = do
    client_socket ← assert_nonn result
    m ← handle_new_client m (pos client_socket) a
    s ← submit n m.server p
    ok (2, record m { server = s })

  unfoldable pub handle_cqe_recv : Measured → Ptr → ℤ → Clock → Run (ℕ × Measured)
  unfolding set_start
  handle_cqe_recv m p result clock = load_op m.server p >>= λ op. con_of op.info >>= λ con.
      let idle = record op { info = info_con (record con { busy = false }) } in
      assert_nonn result >>= λ read_bytes.
      if read_bytes == 0
      then with_server m (plain_close_client_req n (store_op m.server p idle) p)
      else (if ltb n read_bytes
          then exited
          else (if ltb read_bytes n
              then exited
              else (submit n (store_op m.server p (sending n op con read_bytes)) p >>= λ s. ok (
                1,
                record m {
                  server = s;
                  bench_start_send = set_start m.bench_start_send p clock.now;
                },
              ))))

  unfoldable pub handle_cqe_send : Measured → Ptr → ℤ → Clock → Run (ℕ × Measured)
  handle_cqe_send m p result clock = load_op m.server p >>= λ op. con_of op.info >>= λ con.
      assert_nonn result >>= λ sent_bytes.
      if ltb sent_bytes n
      then exited
      else (sb_record_event clock.stopped m.bench (m.bench_start_send p) clock.now >>= λ bench.
          submit n (store_op m.server p (receiving n op con)) p >>= λ s.
          ok (1, record m { server = s; bench = bench }))

  unfoldable pub handle_cqe_timer : Measured → Ptr → ℤ → Clock → Run (ℕ × Measured)
  handle_cqe_timer m p result clock =
      if eqb_ℤ result etime then ok (0, record m { bench = sb_start clock.now m.bench }) else exited

  unfoldable pub handle : Measured → Ptr → ℤ → Allocated → Clock → OpType → Run (ℕ × Measured)
  unfolding handle_cqe_accept handle_cqe_recv handle_cqe_send handle_cqe_timer
  handle m p res a clock accepted_connection = handle_cqe_accept m p res a
  handle m p res a clock close_connection = with_server m (plain_cqe_close m.server p res)
  handle m p res a clock recv_from_client = handle_cqe_recv m p res clock
  handle m p res a clock send_to_client = handle_cqe_send m p res clock
  handle m p res a clock timer_expired = handle_cqe_timer m p res clock

  -- Each completion is counted as a request.
  unfoldable pub service_cqe_events : Measured → Cqe → Allocated → Clock → Run (ℕ × Measured)
  unfolding handle
  service_cqe_events m cqe a clock =
      let counted = record m { bench = sb_requests_performed m.bench (pos 1) } in
      load_op m.server cqe.user_data >>= λ op. handle counted cqe.user_data cqe.res a clock op.op

-- The variables of the loop.
pub record MeasuredLoop : Type 0 where
  pub measured : Measured
  pub to_submit : ℕ

-- The body of the loop once a CQE, or none, is got; the calls of `io_uring_enter` with the new state.
unfoldable pub react :
    (n setup_flags : ℕ)
    → MeasuredLoop
    → Answers
    → Clock
    → Option Cqe
    → Run (List EnterCall × MeasuredLoop)
unfolding service_cqe_events
react n setup_flags w a clock none =
    iou_enter_or_wake setup_flags a.sq_flags w.to_submit a.rc >>= λ calls.
    ok (calls, record w { to_submit = 0 })
react n setup_flags w a clock (some cqe) =
    service_cqe_events n w.measured cqe a.allocated clock >>= λ (k, m).
    ok ([], record { measured = m; to_submit = w.to_submit + k })

-- One turn of the loop.
unfoldable pub turn :
    (n setup_flags : ℕ) → MeasuredLoop → Answers → Clock → Run (List EnterCall × MeasuredLoop)
unfolding react
turn n setup_flags w a clock = iou_get_cqe w.measured.server.iou >>= λ (cqe, iou).
    let m = record w.measured { server = record w.measured.server { iou = iou } } in
    react n setup_flags (record w { measured = m }) a clock cqe
