-- ===== src/Poll/Measured/Erased.antt =====
-- The poll server that measures and the one that does not, side by side.
use linux_modern_io_multiple.Prelude.{
  ℕ, zero, suc, ◌+◌, ◌-◌, ◌≡◌, refl, Bool, true, false, List, [], ◌∷◌, map, not, ltb, ◌&&◌,
  get_elem?, bit_and, ◌==◌,
}
use linux_modern_io_multiple.Prelude.Int.{ℤ, pos, eqb_ℤ}
use linux_modern_io_multiple.Prelude.Run.{
  Run, ok, Yields, ◌>>=◌, assert_zero, assert_nonn, from_cell,
}
use linux_modern_io_multiple.Prelude.Simulation.{
  run_map, Simulates, Simulates-ok, Simulates-out_of_fuel, Simulates-bind, Simulates-lift,
  Simulates-if, Simulates-chain,
}
use linux_modern_io_multiple.Time.{is_negative}
use linux_modern_io_multiple.Net.{read_n_echo}
use linux_modern_io_multiple.Pollfd.{Pollfd}
use linux_modern_io_multiple.Benchmark.Measuring.{
  CanMeasure, sb_record_event-CanMeasure, counted-CanMeasure, connected-CanMeasure,
  started-CanMeasure,
}
use linux_modern_io_multiple.Benchmark.Saved.{Event}
use linux_modern_io_multiple.Poll.{
  Server, Service, pollin, pollhup_err, close_client, clear_revents, before, after,
  expire_timer as plain_expire_timer, poll_handle_new_client as plain_new_client,
  echo_client as plain_echo_client, handle_client_event as plain_client_event,
  service_entry as plain_service_entry, service_from as plain_service_from,
  service_events as plain_service_events,
}
use linux_modern_io_multiple.Poll.Stop.{
  Polled as PlainPolled, poll_turn as plain_turn, poll_loop as plain_loop,
}
use linux_modern_io_multiple.Poll.Measured.{
  Measured, Timed, Polled, poll_handle_new_client, echo_client, handle_client_event, expire_timer,
  service_entry, service_from, service_events, poll_turn, poll_loop,
}

-- The server without its measurements.
abbrev pub erased : Measured → Server
erased m = m.server

abbrev pub Recordable : Measured → Type 0
Recordable m = CanMeasure m.bench

abbrev SameAs : Run Measured → Run Server → Type 0
SameAs = Simulates erased Recordable

-- With something else that is returned.
abbrev SameBeside : {A : Type 0} → Run (A × Measured) → Run (A × Server) → Type 0
SameBeside = Simulates (λ (x, m). (x, m.server)) (λ (x, m). CanMeasure m.bench)

new_client-SameAs :
    (m : Measured) (a : Service)
    → CanMeasure m.bench
    → SameAs (poll_handle_new_client m a) (plain_new_client m.server a)
unfolding poll_handle_new_client
new_client-SameAs m a can =
    Simulates-lift (plain_new_client m.server a) _ (λ s. refl)
      (λ s. connected-CanMeasure m.bench can)

expire_timer-SameAs :
    (m : Measured) (i : ℕ) (a : Timed)
    → CanMeasure m.bench
    → SameAs (expire_timer m i a) (plain_expire_timer m.server i a.service.close)
unfolding expire_timer
expire_timer-SameAs m i a can =
    Simulates-lift (plain_expire_timer m.server i a.service.close) _ (λ s. refl)
      (λ s. started-CanMeasure a.started m.bench can)

echo_client-SameAs :
    (n : ℕ) (m : Measured) (index : ℕ) (entry : Pollfd) (a : Timed)
    → CanMeasure m.bench
    → SameBeside
        (echo_client n m index entry a)
        (plain_echo_client n m.server index entry a.service)
unfolding echo_client plain_echo_client
echo_client-SameAs n m index entry a can =
    let event : Event = record { start = a.start; end = a.end; now = a.stopped } in
    let (bench, recorded, after) = sb_record_event-CanMeasure m.bench event can in
    Simulates-bind (from_cell (get_elem? (m.server.vec).pd index)) _ _ (λ private_data.
      Simulates-bind (from_cell (m.server.cons private_data)) _ _ (λ con.
        Simulates-bind (read_n_echo n con.buf a.service.read a.service.write) _ _ (λ e.
          rw recorded (
            Simulates-if (e.read_bytes == 0) _ _ _ _
              (Simulates-bind (close_client _ index a.service.close) _ _ (λ s.
                Simulates-ok (true, record { server = s; bench = bench }) (true, s) refl after))
              (Simulates-ok _ _ refl after)))))

client_event-SameAs :
    (n : ℕ) (m : Measured) (index : ℕ) (a : Timed)
    → CanMeasure m.bench
    → SameBeside (handle_client_event n m index a) (plain_client_event n m.server index a.service)
unfolding handle_client_event plain_client_event
client_event-SameAs n m index a can =
    Simulates-bind (from_cell (get_elem? (m.server.vec).slots index)) _ _ (λ entry.
      Simulates-if (not (bit_and entry.revents pollhup_err == 0)) _ _ _ _
        (Simulates-bind (close_client m.server index a.service.close) _ _
          (λ s. Simulates-ok _ (true, s) refl can))
        (Simulates-if (not (bit_and entry.revents pollin == 0)) _ _ _ _
          (echo_client-SameAs n m index entry a can)
          (Simulates-ok (false, m) (false, m.server) refl can)))

service_entry-SameAs :
    (n : ℕ) (ls : ℤ) (m : Measured) (i : ℕ) (ev : Pollfd) (a : Timed)
    → CanMeasure m.bench
    → SameBeside (service_entry n ls m i ev a) (plain_service_entry n ls m.server i ev a.service)
unfolding service_entry plain_service_entry
service_entry-SameAs n ls m i ev a can =
    Simulates-if (eqb_ℤ ev.fd ls && not (bit_and ev.revents pollin == 0)) _ _ _ _
      (Simulates-chain (poll_handle_new_client m a.service) (plain_new_client m.server a.service) _
        _ (new_client-SameAs m a.service can) (λ m' can'. cleared false m' can'))
      (Simulates-if (eqb_ℤ ev.fd m.server.timer && not (bit_and ev.revents pollin == 0)) _ _ _ _
        (Simulates-chain (expire_timer m i a) (plain_expire_timer m.server i a.service.close) _ _
          (expire_timer-SameAs m i a can)
          (λ m' can'. Simulates-ok (true, m') (true, m'.server) refl can'))
        (Simulates-chain (handle_client_event n m i a) (plain_client_event n m.server i a.service) _
          _ (client_event-SameAs n m i a can)
          (λ (removed, m') can'.
            Simulates-if removed _ _ _ _ (Simulates-ok (true, m') (true, m'.server) refl can')
              (cleared false m' can'))))
  where
    cleared :
        (b : Bool) (m' : Measured)
        → CanMeasure m'.bench
        → SameBeside
            (clear_revents (m.server.vec).base i m'.server >>= λ s.
              ok (b, record m' { server = s }))
            (clear_revents (m.server.vec).base i m'.server >>= λ s. ok (b, s))
    cleared b m' can' =
        Simulates-bind (clear_revents (m.server.vec).base i m'.server) _ _
          (λ s. Simulates-ok _ (b, s) refl can')

module _ (n : ℕ) (ls : ℤ) (size no_events : ℕ) (answers : ℕ → Timed) where
  service_from-SameAs :
      (fuel i no_serviced : ℕ) (m : Measured)
      → CanMeasure m.bench
      → SameBeside (service_from n ls size no_events answers fuel i no_serviced m) (
          plain_service_from n ls size no_events
            (λ k. (answers k).service)
            fuel
            i
            no_serviced
            m.server)
  unfolding service_from plain_service_from
  service_from-SameAs zero i no_serviced m can = Simulates-out_of_fuel
  service_from-SameAs (suc fuel) i no_serviced m can =
      Simulates-if (not (ltb i size && ltb no_serviced no_events)) _ _ _ _
        (Simulates-ok (no_serviced, m) (no_serviced, m.server) refl can)
        (Simulates-bind (from_cell (get_elem? (m.server.vec).slots i)) _ _ (λ ev.
          Simulates-if (ev.revents == 0) _ _ _ _
            (service_from-SameAs fuel (after i) no_serviced m can)
            (Simulates-chain (service_entry n ls m i ev (answers no_serviced))
              (plain_service_entry n ls m.server i ev (answers no_serviced).service) _ _
              (service_entry-SameAs n ls m i ev (answers no_serviced) can)
              (λ (removed, m') can'.
                Simulates-if removed _ _ _ _
                  (service_from-SameAs fuel (after (before i)) (no_serviced + 1) m' can')
                  (service_from-SameAs fuel (after i) (no_serviced + 1) m' can')))))

service_events-SameAs :
    (n : ℕ) (ls : ℤ) (no_events : ℕ) (answers : ℕ → Timed) (fuel : ℕ) (m : Measured)
    → CanMeasure m.bench
    → SameAs
        (service_events n ls no_events answers fuel m)
        (plain_service_events n ls no_events (λ k. (answers k).service) fuel m.server)
unfolding service_events plain_service_events
service_events-SameAs n ls no_events answers fuel m can =
    Simulates-chain (service_from n ls (m.server.vec).size no_events answers fuel 0 0 m)
      (plain_service_from n ls (m.server.vec).size no_events (λ k. (answers k).service) fuel 0 0
        m.server)
      _ _ (service_from-SameAs n ls (m.server.vec).size no_events answers fuel 0 0 m can)
      (λ (no_serviced, m') can'.
        Simulates-bind (assert_zero (pos (no_events - no_serviced))) _ _
          (λ _. Simulates-ok m' m'.server refl can'))

-- What `ppoll` answers, without the clock.
abbrev pub untimed : Polled → PlainPolled
untimed a = record {
  no_events = a.no_events;
  eintr = a.eintr;
  revents = a.revents;
  answers = λ k. (a.answers k).service;
}

turn-SameAs :
    (n : ℕ) (ls : ℤ) (fuel : ℕ) (m : Measured) (a : Polled)
    → CanMeasure m.bench
    → SameAs (poll_turn n ls fuel m a) (plain_turn n ls fuel m.server (untimed a))
unfolding poll_turn plain_turn
turn-SameAs n ls fuel m a can =
    Simulates-if (is_negative a.no_events && a.eintr) _ _ _ _ (Simulates-ok m m.server refl can) (
      Simulates-bind (assert_nonn a.no_events) _ _ (λ no_events.
        service_events-SameAs n ls no_events a.answers fuel _
          (counted-CanMeasure m.bench (pos no_events) can)))

loop-SameAs :
    (n : ℕ) (ls : ℤ) (fuel : ℕ) (turns : List Polled) (m : Measured)
    → CanMeasure m.bench
    → SameAs (poll_loop n ls fuel m turns) (plain_loop n ls fuel m.server (map untimed turns))
unfolding poll_loop plain_loop
loop-SameAs n ls fuel [] m can = Simulates-ok m m.server refl can
loop-SameAs n ls fuel (a ∷ turns) m can =
    Simulates-chain (poll_turn n ls fuel m a) (plain_turn n ls fuel m.server (untimed a)) _ _
      (turn-SameAs n ls fuel m a can) (λ m' can'. loop-SameAs n ls fuel turns m' can')

-- Over any sequence of turns, the poll server that measures does what the one that does not measure
-- does: it returns, leaves the process, faults or is out of fuel where that one does, and with the same
-- server: the same vector and connections, descriptors closed and messages sent. The measurements can
-- be recorded, and stay so.
pub poll_loop-erased :
    (n : ℕ) (ls : ℤ) (fuel : ℕ) (turns : List Polled) (m : Measured)
    → CanMeasure m.bench
    → (run_map erased (poll_loop n ls fuel m turns)
        ≡ plain_loop n ls fuel m.server (map untimed turns))
      × Yields Recordable (poll_loop n ls fuel m turns)
poll_loop-erased n ls fuel turns m can =
    let same = loop-SameAs n ls fuel turns m can in (same.seen, same.keeps)
