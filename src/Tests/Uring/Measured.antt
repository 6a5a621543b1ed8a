-- ===== src/Tests/Uring/Measured.antt =====
-- The build that measures, with two clients: the message of one is received and echoed, and a message
-- of the other is received in between.
use linux_modern_io_multiple.Prelude.{
  ℕ, ◌+◌, ◌%◌, ◌^◌, ◌≡◌, ◌≢◌, refl, arith, List, [], ◌∷◌, ◌++◌, Option, some,
}
use linux_modern_io_multiple.Prelude.Int.{pos}
use linux_modern_io_multiple.Prelude.Run.{Run, ok, Yields}
use linux_modern_io_multiple.Prelude.Simulation.{run_map}
use linux_modern_io_multiple.Time.{timespec, time_delta, timespec_to_ns, rebalance}
use linux_modern_io_multiple.Measurements.{pcontainer_store}
use linux_modern_io_multiple.Measurements.Holder.{create_value_holder, le_bytes}
use linux_modern_io_multiple.Benchmark.{zero_time, sb_requests_performed, sb_record_event}
use linux_modern_io_multiple.Benchmark.Saved.{latencies, IsMeasuring}
use linux_modern_io_multiple.Uring.Ring.{
  Iou, Cqe, iou_get_cqe, recv_from_client, config_sqe, iou_config_and_submit, iou_acquire_sqe,
  submit_acquired, iou_submit_sqe,
}
use linux_modern_io_multiple.Uring.Server.{
  write_op, store_op, load_op, con_of, submit, service_cqe_events as plain_service,
}
use linux_modern_io_multiple.Uring.Server.Echo.{client_op, cqe_of}
use linux_modern_io_multiple.Uring.Measured.{
  Measured, MeasuredLoop, Clock, turn, react, set_start, handle_cqe_recv, handle_cqe_send, handle,
  service_cqe_events,
}
use linux_modern_io_multiple.Uring.Measured.Erased.{erased, Recordable, service_cqe_events-erased}
use linux_modern_io_multiple.Uring.Setup.Entering.{EnterCall}
use linux_modern_io_multiple.Uring.Loop.{Answers}
use linux_modern_io_multiple.Uring.Ring.Completion.{posts}
use linux_modern_io_multiple.Uring.Measured.Echoed.{
  Meanwhile, start, rings, serves, Gets, with_rings, turn-latency,
}
use linux_modern_io_multiple.Uring.Measured.Requests.{
  Completion, service_all, service_all-request_no,
}
use linux_modern_io_multiple.Tests.Measuring.{bench, none-IsMeasuring}
use linux_modern_io_multiple.Tests.Uring.{con}
use linux_modern_io_multiple.Tests.Uring.Servers.{now, given}

abbrev pub before : Measured
before = record {
  server = now recv_from_client;
  bench_start_send = λ p. zero_time;
  bench = bench 0;
}

abbrev pub at_second : ℕ → Clock
at_second s = record { now = timespec (pos s) (pos 5); stopped = timespec (pos s) (pos 9) }

service_cqe_events-erased_example :
    (run_map erased (service_cqe_events 3 before (cqe_of 200 (pos 3)) given (at_second 1))
      ≡ plain_service 3 (now recv_from_client) (cqe_of 200 (pos 3)) given)
    × Yields Recordable (service_cqe_events 3 before (cqe_of 200 (pos 3)) given (at_second 1))
service_cqe_events-erased_example =
    service_cqe_events-erased 3 before (cqe_of 200 (pos 3)) given (at_second 1)
      (record { valid = none-IsMeasuring.valid; width = refl })

-- The kernel takes what is queued and posts this CQE.
unfoldable arrives : MeasuredLoop → Cqe → MeasuredLoop
arrives w x =
    let iou = w.measured.server.iou in with_rings w (posts (record iou { sq_head = iou.sq_tail }) x)

-- The completion ring is empty.
abbrev idle_loop : MeasuredLoop
idle_loop = record {
  measured = record before {
    server = record before.server { iou = record before.server.iou { cq_head = 1; cq_tail = 1 } };
  };
  to_submit = 1;
}

-- The loop after a turn that returned.
after_turn : Run (List EnterCall × MeasuredLoop) → MeasuredLoop
after_turn (ok (_, w)) = w
after_turn _ = idle_loop

abbrev answers : Answers
answers = record { sq_flags = 0; rc = pos 1; allocated = given }

unfoldable comes : MeasuredLoop
unfolding arrives after_turn turn react iou_get_cqe service_cqe_events handle handle_cqe_recv
    set_start load_op store_op con_of submit iou_config_and_submit iou_acquire_sqe submit_acquired
    config_sqe iou_submit_sqe write_op sb_requests_performed posts
comes = arrives idle_loop (cqe_of 200 (pos 3))

unfoldable received : MeasuredLoop
unfolding comes arrives after_turn turn react iou_get_cqe service_cqe_events handle handle_cqe_recv
    set_start load_op store_op con_of submit iou_config_and_submit iou_acquire_sqe submit_acquired
    config_sqe iou_submit_sqe write_op sb_requests_performed posts
received = after_turn (turn 3 0 comes answers (at_second 1))

received_run : turn 3 0 comes answers (at_second 1) ≡ ok ([], received)
unfolding received comes arrives after_turn turn react iou_get_cqe service_cqe_events handle
    handle_cqe_recv set_start load_op store_op con_of submit iou_config_and_submit iou_acquire_sqe
    submit_acquired config_sqe iou_submit_sqe write_op sb_requests_performed posts
received_run = refl

unfoldable other_comes : MeasuredLoop
unfolding received comes arrives after_turn turn react iou_get_cqe service_cqe_events handle
    handle_cqe_recv set_start load_op store_op con_of submit iou_config_and_submit iou_acquire_sqe
    submit_acquired config_sqe iou_submit_sqe write_op sb_requests_performed posts
other_comes = arrives received (cqe_of 300 (pos 3))

unfoldable other_received : MeasuredLoop
unfolding other_comes received comes arrives after_turn turn react iou_get_cqe service_cqe_events
    handle handle_cqe_recv set_start load_op store_op con_of submit iou_config_and_submit
    iou_acquire_sqe submit_acquired config_sqe iou_submit_sqe write_op sb_requests_performed posts
other_received = after_turn (turn 3 0 other_comes answers (at_second 2))

other_run : turn 3 0 other_comes answers (at_second 2) ≡ ok ([], other_received)
unfolding other_received other_comes received comes arrives after_turn turn react iou_get_cqe
    service_cqe_events handle handle_cqe_recv set_start load_op store_op con_of submit
    iou_config_and_submit iou_acquire_sqe submit_acquired config_sqe iou_submit_sqe write_op
    sb_requests_performed posts
other_run = refl

unfoldable done : MeasuredLoop
unfolding other_received other_comes received comes arrives after_turn turn react iou_get_cqe
    service_cqe_events handle handle_cqe_recv set_start load_op store_op con_of submit
    iou_config_and_submit iou_acquire_sqe submit_acquired config_sqe iou_submit_sqe write_op
    sb_requests_performed posts
done = arrives other_received (cqe_of 200 (pos 3))

unfoldable sent : MeasuredLoop
unfolding done other_received other_comes received comes arrives after_turn turn react iou_get_cqe
    service_cqe_events handle handle_cqe_recv set_start load_op store_op con_of submit
    iou_config_and_submit iou_acquire_sqe submit_acquired config_sqe iou_submit_sqe write_op
    sb_requests_performed posts handle_cqe_send sb_record_event pcontainer_store create_value_holder
    le_bytes time_delta timespec_to_ns rebalance
sent = after_turn (turn 3 0 done answers (at_second 3))

sent_run : turn 3 0 done answers (at_second 3) ≡ ok ([], sent)
unfolding sent done other_received other_comes received comes arrives after_turn turn react
    iou_get_cqe service_cqe_events handle handle_cqe_recv set_start load_op store_op con_of submit
    iou_config_and_submit iou_acquire_sqe submit_acquired config_sqe iou_submit_sqe write_op
    sb_requests_performed posts handle_cqe_send sb_record_event pcontainer_store create_value_holder
    le_bytes time_delta timespec_to_ns rebalance
sent_run = refl

iou_of_run : Run (Option Cqe × Iou) → Iou
iou_of_run (ok (_, iou)) = iou
iou_of_run _ = idle_loop.measured.server.iou

unfoldable rings_after : MeasuredLoop → Iou
unfolding after_turn turn react iou_get_cqe service_cqe_events handle handle_cqe_recv set_start
    load_op store_op con_of submit iou_config_and_submit iou_acquire_sqe submit_acquired config_sqe
    iou_submit_sqe write_op sb_requests_performed posts
rings_after w = iou_of_run (iou_get_cqe w.measured.server.iou)

comes_got : Gets comes (some (cqe_of 200 (pos 3))) (rings_after comes)
unfolding rings_after iou_of_run comes arrives after_turn turn react iou_get_cqe service_cqe_events
    handle handle_cqe_recv set_start load_op store_op con_of submit iou_config_and_submit
    iou_acquire_sqe submit_acquired config_sqe iou_submit_sqe write_op sb_requests_performed posts
comes_got = refl

other_got : Gets other_comes (some (cqe_of 300 (pos 3))) (rings_after other_comes)
unfolding rings_after iou_of_run other_comes received comes arrives after_turn turn react
    iou_get_cqe service_cqe_events handle handle_cqe_recv set_start load_op store_op con_of submit
    iou_config_and_submit iou_acquire_sqe submit_acquired config_sqe iou_submit_sqe write_op
    sb_requests_performed posts
other_got = refl

done_got : Gets done (some (cqe_of 200 (pos 3))) (rings_after done)
unfolding rings_after iou_of_run done other_received other_comes received comes arrives after_turn
    turn react iou_get_cqe service_cqe_events handle handle_cqe_recv set_start load_op store_op
    con_of submit iou_config_and_submit iou_acquire_sqe submit_acquired config_sqe iou_submit_sqe
    write_op sb_requests_performed posts
done_got = refl

done-IsMeasuring : IsMeasuring done.measured.bench
unfolding done other_received other_comes received comes arrives after_turn turn react iou_get_cqe
    service_cqe_events handle handle_cqe_recv set_start load_op store_op con_of submit
    iou_config_and_submit iou_acquire_sqe submit_acquired config_sqe iou_submit_sqe write_op
    sb_requests_performed posts
done-IsMeasuring = record { on = refl; valid = none-IsMeasuring.valid; width = refl }

done_room : (done.measured.bench.event_latency).size ≢ (done.measured.bench.event_latency).capacity
unfolding done other_received other_comes received comes arrives after_turn turn react iou_get_cqe
    service_cqe_events handle handle_cqe_recv set_start load_op store_op con_of submit
    iou_config_and_submit iou_acquire_sqe submit_acquired config_sqe iou_submit_sqe write_op
    sb_requests_performed posts
done_room e = omega (arith, e)

-- The kernel takes the send, and posts the message of the other client, which the loop receives; then
-- the kernel posts that the send is done.
meanwhile : Meanwhile 3 0 200 received done
unfolding done other_comes arrives
meanwhile = rings other_received _ (
    serves other_comes other_received (cqe_of 300 (pos 3)) (rings_after other_comes) answers
      (at_second 2) [] (rings received _ start) other_got (omega arith) (omega arith) other_run)

comes_here : comes.measured.server.ops 200 ≡ some (client_op recv_from_client (con 6) 10)
unfolding comes arrives after_turn turn react iou_get_cqe service_cqe_events handle handle_cqe_recv
    set_start load_op store_op con_of submit iou_config_and_submit iou_acquire_sqe submit_acquired
    config_sqe iou_submit_sqe write_op sb_requests_performed posts
comes_here = refl

turn-latency_example :
    latencies sent.measured.bench.event_latency
    ≡ latencies done.measured.bench.event_latency
      ++ (timespec_to_ns (time_delta (timespec (pos 3) (pos 5)) (timespec (pos 1) (pos 5))) ∷ [])
turn-latency_example =
    turn-latency 3 0 comes received done sent 200 (client_op recv_from_client (con 6) 10) (pos 3)
      (rings_after comes) (rings_after done) answers answers (at_second 1) (at_second 3) [] []
      (omega arith) comes_here refl comes_got received_run meanwhile done-IsMeasuring done_room
      done_got sent_run

abbrev both : List Completion
both =
    record { cqe = cqe_of 200 (pos 3); allocated = given; clock = at_second 1 }
    ∷ record { cqe = cqe_of 300 (pos 3); allocated = given; clock = at_second 2 }
    ∷ []

-- The server after completions that were served.
after_all : Run Measured → Measured
after_all (ok m) = m
after_all _ = before

unfoldable both_served : Measured
unfolding after_all service_all service_cqe_events handle handle_cqe_recv set_start load_op store_op
    con_of submit iou_config_and_submit iou_acquire_sqe submit_acquired config_sqe iou_submit_sqe
    write_op sb_requests_performed
both_served = after_all (service_all 3 before both)

both_run : service_all 3 before both ≡ ok both_served
unfolding both_served after_all service_all service_cqe_events handle handle_cqe_recv set_start
    load_op store_op con_of submit iou_config_and_submit iou_acquire_sqe submit_acquired config_sqe
    iou_submit_sqe write_op sb_requests_performed
both_run = refl

service_all-request_no_example :
    (both_served.bench.request_no ≡ (0 + 2) % 2 ^ 64) × IsMeasuring both_served.bench
service_all-request_no_example =
    service_all-request_no 3 both before both_served none-IsMeasuring (omega arith) (omega arith)
      both_run
