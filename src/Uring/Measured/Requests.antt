-- ===== src/Uring/Measured/Requests.antt =====
-- The requests that the build that measures counts.
use linux_modern_io_multiple.Prelude.{
  ℕ, suc, ◌+◌, ◌%◌, ◌^◌, ◌≤◌, ◌<◌, ◌≡◌, ◌≢◌, ◌∙◌, refl, subst, arith, true, not, Bool-cases, inl,
  inr, List, [], ◌∷◌, length, ltb, ◌==◌,
}
use linux_modern_io_multiple.Prelude.Int.{ℤ, pos, eqb_ℤ}
use linux_modern_io_multiple.Prelude.Run.{
  Run, ok, ◌>>=◌, assert_nonn, Yields, Yields-bind, Yields-chain, Yields-if, Yields-ok,
  >>=-returned,
}
use linux_modern_io_multiple.Links.{Ptr}
use linux_modern_io_multiple.Benchmark.{
  ServerBench, sb_client_connected, sb_requests_performed, sb_record_event, sb_start, sb_stop,
}
use linux_modern_io_multiple.Measurements.{pcontainer_store}
use linux_modern_io_multiple.Time.{Timespec, is_negative}
use linux_modern_io_multiple.Benchmark.Saved.{IsMeasuring, Event, sb_record_event-append}
use linux_modern_io_multiple.Uring.Ring.{
  OpType, accepted_connection, close_connection, recv_from_client, send_to_client, timer_expired,
  Cqe,
}
use linux_modern_io_multiple.Uring.Server.{
  Server, Allocated, load_op, store_op, con_of, submit, etime, sending, receiving,
  handle_new_client as plain_new_client, handle_cqe_close as plain_cqe_close,
}
use linux_modern_io_multiple.Uring.Measured.{
  Measured, Clock, with_server, handle_new_client, handle_cqe_accept, handle_cqe_recv,
  handle_cqe_send, handle_cqe_timer, handle, service_cqe_events,
}
use linux_modern_io_multiple.Benchmark.Measuring.{
  sb_requests_performed-event_latency, sb_requests_performed-IsMeasuring,
}

-- A completion that the loop gets, with what the system answers while it is served.
pub record Completion : Type 0 where
  pub cqe : Cqe
  pub allocated : Allocated
  pub clock : Clock

-- Completions that are served one after the other.
unfoldable pub service_all : ℕ → Measured → List Completion → Run Measured
service_all n m [] = ok m
service_all n m (c ∷ cs) =
    service_cqe_events n m c.cqe c.allocated c.clock >>= λ (k, m'). service_all n m' cs

-- The server goes on measuring, with the requests counted as they were, and one latency more at most.
record Measures (bench bench' : ServerBench) : Type 0 where
  measuring : IsMeasuring bench'
  requests : bench'.request_no ≡ bench.request_no
  capacity : bench'.event_latency.capacity ≡ bench.event_latency.capacity
  grown : bench'.event_latency.size ≤ suc bench.event_latency.size

-- The timer expires once more.
sb_start-on :
    (now : Timespec) (bench : ServerBench) → bench.do_measure ≡ true → sb_start now bench ≡ bench
unfolding sb_start
sb_start-on now bench on = simp (on)

-- Recording an event counts no request.
sb_record_event-request_no :
    (bench : ServerBench) (e : Event)
    → Yields
        (λ (b : ServerBench). b.request_no ≡ bench.request_no)
        (sb_record_event e.now bench e.start e.end)
unfolding sb_record_event sb_stop
sb_record_event-request_no bench e = Yields-if _ (not bench.do_measure) _ _ refl (
    Yields-bind _ (pcontainer_store bench.event_latency _) _ (λ (rc, container).
      let stored = record bench { event_latency = container } in
      elim (Bool-cases (is_negative rc)) [ inl full ↦ rw full refl | inr kept ↦ rw kept refl ]))

module _ (n : ℕ) (m : Measured) (p : Ptr) (res : ℤ) (a : Allocated) (clock : Clock)
    (on : IsMeasuring m.bench)
    (room : (m.bench.event_latency).size ≢ (m.bench.event_latency).capacity) where
  abbrev GoesOn : ℕ × Measured → Type 0
  GoesOn (k, m') = Measures m.bench m'.bench

  unchanged : Measures m.bench m.bench
  unchanged = record { measuring = on; requests = refl; capacity = refl; grown = omega arith }

  with_server-GoesOn : (run : Run (ℕ × Server)) → Yields GoesOn (with_server m run)
  with_server-GoesOn run = Yields-bind GoesOn run _ (λ x. unchanged)

  accept-GoesOn : Yields GoesOn (handle_cqe_accept n m p res a)
  unfolding handle_cqe_accept handle_new_client sb_client_connected
  accept-GoesOn = Yields-bind GoesOn (assert_nonn res) _ (λ fd.
      Yields-chain (λ (m1 : Measured). Measures m.bench m1.bench) GoesOn
        (handle_new_client n m (pos fd) a) _
        (Yields-bind (λ (m1 : Measured). Measures m.bench m1.bench)
          (plain_new_client n m.server (pos fd) a) _
          (λ s. record {
            measuring = record { on = on.on; valid = on.valid; width = on.width };
            requests = refl;
            capacity = refl;
            grown = omega arith;
          }))
        (λ m1 goes_on. Yields-bind GoesOn (submit n m1.server p) _ (λ s. goes_on)))

  recv-GoesOn : Yields GoesOn (handle_cqe_recv n m p res clock)
  unfolding handle_cqe_recv
  recv-GoesOn = Yields-bind GoesOn (load_op m.server p) _ (λ op.
      Yields-bind GoesOn (con_of op.info) _ (λ con. Yields-bind GoesOn (assert_nonn res) _ (λ k.
        Yields-if GoesOn (k == 0) _ _ (with_server-GoesOn _) (
          Yields-if GoesOn (ltb n k) _ _ tt (
            Yields-if GoesOn (ltb k n) _ _ tt (
              Yields-bind GoesOn (submit n (store_op m.server p (sending n op con k)) p) _
                (λ s. unchanged)))))))

  send-GoesOn : Yields GoesOn (handle_cqe_send n m p res clock)
  unfolding handle_cqe_send
  send-GoesOn =
      let event : Event = record {
        start = m.bench_start_send p;
        end = clock.now;
        now = clock.stopped;
      } in
      let (bench, recorded, after, _, cap, size) = sb_record_event-append m.bench event on room in
      Yields-bind GoesOn (load_op m.server p) _ (λ op. Yields-bind GoesOn (con_of op.info) _ (λ con.
        Yields-bind GoesOn (assert_nonn res) _ (λ k. Yields-if GoesOn (ltb k n) _ _ tt (
          rw recorded (
            Yields-bind GoesOn (submit n (store_op m.server p (receiving n op con)) p) _ (λ s.
              record {
                measuring = after;
                requests =
                    Yields-ok (λ (b : ServerBench). b.request_no ≡ m.bench.request_no) _ bench
                      recorded (sb_record_event-request_no m.bench event);
                capacity = cap;
                grown = omega (arith, size);
              }))))))

  timer-GoesOn : Yields GoesOn (handle_cqe_timer n m p res clock)
  unfolding handle_cqe_timer
  timer-GoesOn =
      Yields-if GoesOn (eqb_ℤ res etime) _ _ (rw (sb_start-on clock.now m.bench on.on) unchanged) tt

  handle-GoesOn : (kind : OpType) → Yields GoesOn (handle n m p res a clock kind)
  unfolding handle
  handle-GoesOn accepted_connection = accept-GoesOn
  handle-GoesOn close_connection = with_server-GoesOn (plain_cqe_close m.server p res)
  handle-GoesOn recv_from_client = recv-GoesOn
  handle-GoesOn send_to_client = send-GoesOn
  handle-GoesOn timer_expired = timer-GoesOn

-- While it measures and has room for a latency, the server counts a completion that it serves.
service_cqe_events-counted :
    (n : ℕ) (m : Measured) (cqe : Cqe) (a : Allocated) (clock : Clock) (k : ℕ) (m' : Measured)
    → IsMeasuring m.bench
    → (m.bench.event_latency).size ≢ (m.bench.event_latency).capacity
    → service_cqe_events n m cqe a clock ≡ ok (k, m')
    → Measures (sb_requests_performed m.bench (pos 1)) m'.bench
unfolding service_cqe_events
service_cqe_events-counted n m cqe a clock k m' on room ran =
    let counted = record m { bench = sb_requests_performed m.bench (pos 1) } in
    let same = sb_requests_performed-event_latency m.bench (pos 1) in
    Yields-ok (λ ((k, m') : ℕ × Measured). Measures counted.bench m'.bench) _ (k, m') ran
      (Yields-bind _ (load_op m.server cqe.user_data) _ (λ op.
        handle-GoesOn n counted cqe.user_data cqe.res a clock
          (sb_requests_performed-IsMeasuring m.bench (pos 1) on) (rw same room) op.op))

-- While the server measures, and if its container has room for a latency of each, the completions
-- that are served one after the other are all counted, each once, in the 64 bits of the counter, and
-- the server goes on measuring.
pub service_all-request_no :
    (n : ℕ) (cs : List Completion) (m m' : Measured)
    → IsMeasuring m.bench
    → m.bench.request_no < 2 ^ 64
    → (m.bench.event_latency).size + length cs ≤ (m.bench.event_latency).capacity
    → service_all n m cs ≡ ok m'
    → (m'.bench.request_no ≡ (m.bench.request_no + length cs) % 2 ^ 64) × IsMeasuring m'.bench
unfolding service_all
service_all-request_no n [] m m' on word room ran =
    let same : m ≡ m' = cc in
    subst
      (λ (x : Measured).
        (x.bench.request_no ≡ (m.bench.request_no + 0) % 2 ^ 64) × IsMeasuring x.bench)
      same (omega arith, on)
service_all-request_no n (c ∷ cs) m m' on word room ran =
    let ((k, m1), served, more) =
      >>=-returned (service_cqe_events n m c.cqe c.allocated c.clock) _ ran in
    let one =
      service_cqe_events-counted n m c.cqe c.allocated c.clock k m1 on (omega arith) served in
    let same = sb_requests_performed-event_latency m.bench (pos 1) in
    let counted : m1.bench.request_no ≡ (m.bench.request_no + 1) % 2 ^ 64 =
      one.requests ∙ (unfold sb_requests_performed in ground (arith, on.on)) in
    let (all, still) =
      service_all-request_no n cs m1 m' one.measuring (omega (arith, counted))
        (omega (arith, one.capacity, one.grown, rw same at one.grown, rw same at one.capacity))
        more in
    (omega (arith, all, counted), still)
