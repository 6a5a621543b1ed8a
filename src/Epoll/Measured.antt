-- ===== src/Epoll/Measured.antt =====
-- code/c/server/epoll/main.c in the build with server-side benchmarking, which measures the latency
-- too: the handlers of Epoll and the turns of the loop with what `#if DO_SERVER_SIDE_BENCHMARKING == 1`
-- adds to them. The clock's answers are arguments.
pub mod Erased
use linux_modern_io_multiple.Prelude.{
  ℕ, List, [], ◌∷◌, map, length, bit_and, ◌==◌, if◌then◌else◌, not, Bool,
}
use linux_modern_io_multiple.Prelude.Int.{ℤ, pos, negsuc, eqb_ℤ}
use linux_modern_io_multiple.Prelude.Run.{Run, ok, exited, out_of_fuel, ◌>>=◌}
use linux_modern_io_multiple.Links.{Ptr}
use linux_modern_io_multiple.Net.{accept_client}
use linux_modern_io_multiple.Time.{Timespec}
use linux_modern_io_multiple.Benchmark.{
  ServerBench, sb_start, sb_client_connected, sb_requests_performed, sb_record_event,
}
use linux_modern_io_multiple.Epoll.{
  Server, Event, Arrival, event_fd, as_connection, close_client, close_timer, epollin, epollrdhup,
  echo_client as plain_echo_client, epoll_handle_new_client as plain_new_client,
}

pub record Measured : Type 0 where
  pub server : Server
  pub bench : ServerBench

-- What the clock shows where `handle_client_event` starts and ends an echo, in `sb_start`, and in
-- `sb_stop` where a record no longer fits.
pub record Clock : Type 0 where
  pub start : Timespec
  pub end : Timespec
  pub started : Timespec
  pub stopped : Timespec

-- An event, and what the clock shows while it is serviced.
pub record Timed : Type 0 where
  pub event : Event
  pub clock : Clock

-- The rest of the code keeps the measurements.
abbrev pub with_server : Measured → Run Server → Run Measured
with_server m run = run >>= λ s. ok (record m { server = s })

unfoldable pub epoll_handle_new_client : List ℕ → Measured → ℤ → Arrival → Run Measured
epoll_handle_new_client zeroes m client_fd a = plain_new_client zeroes m.server client_fd a >>= λ s.
    ok (record { server = s; bench = sb_client_connected m.bench })

unfoldable pub epoll_handle_new_clients : List ℕ → Measured → List Arrival → Run Measured
epoll_handle_new_clients zeroes m [] = out_of_fuel
epoll_handle_new_clients zeroes m (a ∷ rounds) = accept_client a.accept4 a.again >>= λ client_fd.
    if eqb_ℤ client_fd (negsuc 0)
    then ok m
    else (epoll_handle_new_client zeroes m client_fd a >>= λ m'.
        epoll_handle_new_clients zeroes m' rounds)

unfoldable pub timer_expired : Measured → (close : ℤ) → Clock → Run Measured
timer_expired m close clock = close_timer m.server close >>= λ s.
    ok (record { server = s; bench = sb_start clock.started m.bench })

-- The branch of `handle_client_event` that reads and echoes.
unfoldable pub echo_client : ℕ → Measured → Ptr → Timed → Run Measured
echo_client n m con ev = plain_echo_client n m.server con ev.event.read ev.event.write >>= λ s.
    sb_record_event ev.clock.stopped m.bench ev.clock.start ev.clock.end >>= λ bench.
    ok (record { server = s; bench = bench })

unfoldable pub handle_client_event : ℕ → Measured → Ptr → Timed → Run Measured
handle_client_event n m con ev =
    if not (bit_and ev.event.events epollrdhup == 0)
    then with_server m (close_client m.server con ev.event.close)
    else (if not (bit_and ev.event.events epollin == 0) then echo_client n m con ev else ok m)

unfoldable pub service_event : ℕ → List ℕ → ℤ → Measured → Timed → Run Measured
service_event n zeroes ls m ev = event_fd ls m.server ev.event.ptr >>= λ fd.
    if eqb_ℤ fd ls
    then epoll_handle_new_clients zeroes m ev.event.arrivals
    else (if eqb_ℤ fd m.server.timer
        then timer_expired m ev.event.close ev.clock
        else (as_connection ev.event.ptr >>= λ con. handle_client_event n m con ev))

unfoldable pub service_events : ℕ → List ℕ → ℤ → Measured → List Timed → Run Measured
service_events n zeroes ls m [] = ok m
service_events n zeroes ls m (ev ∷ evs) =
    service_event n zeroes ls m ev >>= λ m'. service_events n zeroes ls m' evs

-- What `epoll_pwait` answers: a negative number, whether `errno` is then EINTR; or the events.
pub data Waited : Type 0 where
  unready : (eintr : Bool) → Waited
  ready : List Timed → Waited

-- One turn of the loop: the events count as requests before they are serviced.
unfoldable pub epoll_turn : ℕ → List ℕ → ℤ → Measured → Waited → Run Measured
epoll_turn n zeroes ls m (unready eintr) = if eintr then ok m else exited
epoll_turn n zeroes ls m (ready evs) =
    let counted = sb_requests_performed m.bench (pos (length evs)) in
    service_events n zeroes ls (record m { bench = counted }) evs

unfoldable pub epoll_loop : ℕ → List ℕ → ℤ → Measured → List Waited → Run Measured
unfolding epoll_turn
epoll_loop n zeroes ls m [] = ok m
epoll_loop n zeroes ls m (a ∷ turns) =
    epoll_turn n zeroes ls m a >>= λ m'. epoll_loop n zeroes ls m' turns
