-- ===== src/Epoll/Measured/Erased.antt =====
-- The epoll server that measures and the one that does not, side by side.
use linux_modern_io_multiple.Prelude.{ℕ, ◌≡◌, refl, List, [], ◌∷◌, map, length, not, bit_and, ◌==◌}
use linux_modern_io_multiple.Prelude.Int.{ℤ, pos, negsuc, eqb_ℤ}
use linux_modern_io_multiple.Prelude.Run.{Run, Yields}
use linux_modern_io_multiple.Prelude.Simulation.{
  run_map, Simulates, Simulates-ok, Simulates-exited, Simulates-out_of_fuel, Simulates-bind,
  Simulates-lift, Simulates-if, Simulates-chain,
}
use linux_modern_io_multiple.Links.{Ptr}
use linux_modern_io_multiple.Net.{accept_client}
use linux_modern_io_multiple.Benchmark.{sb_requests_performed}
use linux_modern_io_multiple.Benchmark.Measuring.{
  CanMeasure, sb_record_event-CanMeasure, counted-CanMeasure, connected-CanMeasure,
  started-CanMeasure,
}
use linux_modern_io_multiple.Benchmark.Saved.{Event as Recorded}
use linux_modern_io_multiple.Epoll.{
  Server, Arrival, event_fd, as_connection, close_client, close_timer, epollin, epollrdhup,
  echo_client as plain_echo_client, epoll_handle_new_client as plain_new_client,
  epoll_handle_new_clients as plain_new_clients, handle_client_event as plain_client_event,
  service_event as plain_service_event, service_events as plain_service_events,
}
use linux_modern_io_multiple.Epoll.Stop.{
  Waited as PlainWaited, epoll_turn as plain_turn, epoll_loop as plain_loop,
}
use linux_modern_io_multiple.Epoll.Measured.{
  Measured, Timed, Waited, unready, ready, epoll_handle_new_client, epoll_handle_new_clients,
  timer_expired, echo_client, handle_client_event, service_event, service_events, epoll_turn,
  epoll_loop,
}

-- The server without its measurements.
abbrev pub erased : Measured → Server
erased m = m.server

abbrev pub Recordable : Measured → Type 0
Recordable m = CanMeasure m.bench

abbrev SameAs : Run Measured → Run Server → Type 0
SameAs = Simulates erased Recordable

new_client-SameAs :
    (zeroes : List ℕ) (m : Measured) (client_fd : ℤ) (a : Arrival)
    → CanMeasure m.bench
    → SameAs
        (epoll_handle_new_client zeroes m client_fd a)
        (plain_new_client zeroes m.server client_fd a)
unfolding epoll_handle_new_client
new_client-SameAs zeroes m client_fd a can =
    Simulates-lift (plain_new_client zeroes m.server client_fd a) _ (λ s. refl)
      (λ s. connected-CanMeasure m.bench can)

new_clients-SameAs :
    (zeroes : List ℕ) (m : Measured) (rounds : List Arrival)
    → CanMeasure m.bench
    → SameAs (epoll_handle_new_clients zeroes m rounds) (plain_new_clients zeroes m.server rounds)
unfolding epoll_handle_new_clients plain_new_clients
new_clients-SameAs zeroes m [] can = Simulates-out_of_fuel
new_clients-SameAs zeroes m (a ∷ rounds) can =
    Simulates-bind (accept_client a.accept4 a.again) _ _ (λ client_fd.
      Simulates-if (eqb_ℤ client_fd (negsuc 0)) _ _ _ _ (Simulates-ok m m.server refl can) (
        Simulates-chain (epoll_handle_new_client zeroes m client_fd a)
          (plain_new_client zeroes m.server client_fd a) _ _
          (new_client-SameAs zeroes m client_fd a can)
          (λ m' can'. new_clients-SameAs zeroes m' rounds can')))

echo_client-SameAs :
    (n : ℕ) (m : Measured) (con : Ptr) (ev : Timed)
    → CanMeasure m.bench
    → SameAs
        (echo_client n m con ev)
        (plain_echo_client n m.server con ev.event.read ev.event.write)
unfolding echo_client
echo_client-SameAs n m con ev can =
    let event : Recorded = record {
      start = ev.clock.start;
      end = ev.clock.end;
      now = ev.clock.stopped;
    } in
    let (bench, recorded, after) = sb_record_event-CanMeasure m.bench event can in
    rw recorded (
      Simulates-lift (plain_echo_client n m.server con ev.event.read ev.event.write)
        (λ s. record { server = s; bench = bench }) (λ s. refl) (λ s. after))

client_event-SameAs :
    (n : ℕ) (m : Measured) (con : Ptr) (ev : Timed)
    → CanMeasure m.bench
    → SameAs (handle_client_event n m con ev) (plain_client_event n m.server con ev.event)
unfolding handle_client_event plain_client_event
client_event-SameAs n m con ev can =
    Simulates-if (not (bit_and ev.event.events epollrdhup == 0)) _ _ _ _
      (Simulates-lift (close_client m.server con ev.event.close) _ (λ s. refl) (λ s. can))
      (Simulates-if (not (bit_and ev.event.events epollin == 0)) _ _ _ _
        (echo_client-SameAs n m con ev can) (Simulates-ok m m.server refl can))

service_event-SameAs :
    (n : ℕ) (zeroes : List ℕ) (ls : ℤ) (m : Measured) (ev : Timed)
    → CanMeasure m.bench
    → SameAs (service_event n zeroes ls m ev) (plain_service_event n zeroes ls m.server ev.event)
unfolding service_event plain_service_event timer_expired
service_event-SameAs n zeroes ls m ev can =
    Simulates-bind (event_fd ls m.server ev.event.ptr) _ _ (λ fd.
      Simulates-if (eqb_ℤ fd ls) _ _ _ _ (new_clients-SameAs zeroes m ev.event.arrivals can) (
        Simulates-if (eqb_ℤ fd m.server.timer) _ _ _ _
          (Simulates-lift (close_timer m.server ev.event.close) _ (λ s. refl)
            (λ s. started-CanMeasure ev.clock.started m.bench can))
          (Simulates-bind (as_connection ev.event.ptr) _ _
            (λ con. client_event-SameAs n m con ev can))))

service_events-SameAs :
    (n : ℕ) (zeroes : List ℕ) (ls : ℤ) (m : Measured) (evs : List Timed)
    → CanMeasure m.bench
    → SameAs
        (service_events n zeroes ls m evs)
        (plain_service_events n zeroes ls m.server (map (λ e. e.event) evs))
unfolding service_events plain_service_events
service_events-SameAs n zeroes ls m [] can = Simulates-ok m m.server refl can
service_events-SameAs n zeroes ls m (ev ∷ evs) can =
    Simulates-chain (service_event n zeroes ls m ev)
      (plain_service_event n zeroes ls m.server ev.event) _ _
      (service_event-SameAs n zeroes ls m ev can)
      (λ m' can'. service_events-SameAs n zeroes ls m' evs can')

-- What `epoll_pwait` answers, without the clock.
abbrev pub untimed : Waited → PlainWaited
untimed (unready eintr) = PlainWaited.unready eintr
untimed (ready evs) = PlainWaited.ready (map (λ e. e.event) evs)

turn-SameAs :
    (n : ℕ) (zeroes : List ℕ) (ls : ℤ) (m : Measured) (a : Waited)
    → CanMeasure m.bench
    → SameAs (epoll_turn n zeroes ls m a) (plain_turn n zeroes ls m.server (untimed a))
unfolding epoll_turn plain_turn
turn-SameAs n zeroes ls m (unready eintr) can =
    Simulates-if eintr _ _ _ _ (Simulates-ok m m.server refl can) Simulates-exited
turn-SameAs n zeroes ls m (ready evs) can =
    let counted = sb_requests_performed m.bench (pos (length evs)) in
    service_events-SameAs n zeroes ls (record m { bench = counted }) evs
      (counted-CanMeasure m.bench (pos (length evs)) can)

loop-SameAs :
    (n : ℕ) (zeroes : List ℕ) (ls : ℤ) (turns : List Waited) (m : Measured)
    → CanMeasure m.bench
    → SameAs (epoll_loop n zeroes ls m turns) (plain_loop n zeroes ls m.server (map untimed turns))
unfolding epoll_loop plain_loop
loop-SameAs n zeroes ls [] m can = Simulates-ok m m.server refl can
loop-SameAs n zeroes ls (a ∷ turns) m can =
    Simulates-chain (epoll_turn n zeroes ls m a) (plain_turn n zeroes ls m.server (untimed a)) _ _
      (turn-SameAs n zeroes ls m a can) (λ m' can'. loop-SameAs n zeroes ls turns m' can')

-- Over any sequence of turns, the epoll server that measures does what the one that does not measure
-- does: it returns, leaves the process or faults where that one does, and with the same server: the
-- same connections, descriptors closed and messages sent. The measurements can be recorded, and stay so.
pub epoll_loop-erased :
    (n : ℕ) (zeroes : List ℕ) (ls : ℤ) (turns : List Waited) (m : Measured)
    → CanMeasure m.bench
    → (run_map erased (epoll_loop n zeroes ls m turns)
        ≡ plain_loop n zeroes ls m.server (map untimed turns))
      × Yields Recordable (epoll_loop n zeroes ls m turns)
epoll_loop-erased n zeroes ls turns m can =
    let same = loop-SameAs n zeroes ls turns m can in (same.seen, same.keeps)
