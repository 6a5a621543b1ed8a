-- ===== src/Poll/Measured.antt =====
-- code/c/server/poll/main.c in the build with server-side benchmarking, which measures the latency too:
-- the handlers of Poll and the turns of the loop with what `#if DO_SERVER_SIDE_BENCHMARKING == 1` adds
-- to them. The clock's answers are arguments.
pub mod Erased
use linux_modern_io_multiple.Prelude.{
  ℕ, zero, suc, ◌+◌, ◌-◌, Bool, true, false, ◌&&◌, not, List, [], ◌∷◌, ◌++◌, some, get_elem?, take,
  ltb, bit_and, ◌==◌, if◌then◌else◌,
}
use linux_modern_io_multiple.Prelude.Int.{ℤ, pos, eqb_ℤ}
use linux_modern_io_multiple.Prelude.Run.{
  Run, ok, out_of_fuel, ◌>>=◌, ◌>>◌, assert_zero, assert_nonn, from_cell,
}
use linux_modern_io_multiple.Time.{Timespec, is_negative}
use linux_modern_io_multiple.Net.{read_n_echo}
use linux_modern_io_multiple.Pollfd.{Pollfd}
use linux_modern_io_multiple.Benchmark.{
  ServerBench, sb_start, sb_client_connected, sb_requests_performed, sb_record_event,
}
use linux_modern_io_multiple.Poll.{
  Server, Service, pollin, pollhup_err, write_con, close_client, clear_revents, before, after,
  expire_timer as plain_expire_timer, poll_handle_new_client as plain_new_client,
}
use linux_modern_io_multiple.Poll.Stop.{set_revents}

pub record Measured : Type 0 where
  pub server : Server
  pub bench : ServerBench

-- What the system answers while an event is serviced, and what the clock shows where
-- `handle_client_event` starts and ends an echo, in `sb_start`, and in `sb_stop` where a record no
-- longer fits.
pub record Timed : Type 0 where
  pub service : Service
  pub start : Timespec
  pub end : Timespec
  pub started : Timespec
  pub stopped : Timespec

unfoldable pub poll_handle_new_client : Measured → Service → Run Measured
poll_handle_new_client m a = plain_new_client m.server a >>= λ s.
    ok (record { server = s; bench = sb_client_connected m.bench })

-- The branch of `handle_client_event` that reads and echoes.
unfoldable pub echo_client : ℕ → Measured → ℕ → Pollfd → Timed → Run (Bool × Measured)
echo_client n m index entry a = do
  private_data ← from_cell (get_elem? (m.server.vec).pd index)
  con ← from_cell (m.server.cons private_data)
  e ← read_n_echo n con.buf a.service.read a.service.write
  let s' = record m.server {
    cons =
        write_con m.server.cons private_data
          (some (record { buf_size = con.buf_size; buf = e.buf }));
    sent = m.server.sent ++ (if e.read_bytes == 0 then [] else (entry.fd, e.sent) ∷ []);
  }
  bench ← sb_record_event a.stopped m.bench a.start a.end
  (if e.read_bytes == 0
      then (close_client s' index a.service.close >>= λ s''.
          ok (true, record { server = s''; bench = bench }))
      else ok (false, record { server = s'; bench = bench }))

-- The Boolean is `removed_client`.
unfoldable pub handle_client_event : ℕ → Measured → ℕ → Timed → Run (Bool × Measured)
handle_client_event n m index a = from_cell (get_elem? (m.server.vec).slots index) >>= λ entry.
    if not (bit_and entry.revents pollhup_err == 0)
    then (close_client m.server index a.service.close >>= λ s'. ok (true, record m { server = s' }))
    else (if not (bit_and entry.revents pollin == 0)
        then echo_client n m index entry a
        else ok (false, m))

-- `timer_expired`, and the removal after it.
unfoldable pub expire_timer : Measured → ℕ → Timed → Run Measured
expire_timer m i a = plain_expire_timer m.server i a.service.close >>= λ s.
    ok (record { server = s; bench = sb_start a.started m.bench })

-- The body of the loop for an entry that is ready.
unfoldable pub service_entry : ℕ → ℤ → Measured → ℕ → Pollfd → Timed → Run (Bool × Measured)
service_entry n ls m i ev a =
    let base = (m.server.vec).base in
    let readable = not (bit_and ev.revents pollin == 0) in
    if eqb_ℤ ev.fd ls && readable
    then (poll_handle_new_client m a.service >>= λ m'.
        clear_revents base i m'.server >>= λ s. ok (false, record m' { server = s }))
    else (if eqb_ℤ ev.fd m.server.timer && readable
        then (expire_timer m i a >>= λ m'. ok (true, m'))
        else (handle_client_event n m i a >>= λ (removed, m').
            if removed
            then ok (true, m')
            else (clear_revents base i m'.server >>= λ s. ok (false, record m' { server = s }))))

module _ (n : ℕ) (ls : ℤ) (size no_events : ℕ) (answers : ℕ → Timed) where
  -- The loop of `service_events` at index `i`.
  unfoldable pub service_from : ℕ → ℕ → ℕ → Measured → Run (ℕ × Measured)
  service_from zero i no_serviced m = out_of_fuel
  service_from (suc fuel) i no_serviced m =
      let rest = service_from fuel in
      if not (ltb i size && ltb no_serviced no_events)
      then ok (no_serviced, m)
      else (from_cell (get_elem? (m.server.vec).slots i) >>= λ ev.
          if ev.revents == 0
          then rest (after i) no_serviced m
          else (service_entry n ls m i ev (answers no_serviced) >>= λ (removed, m').
              if removed
              then rest (after (before i)) (no_serviced + 1) m'
              else rest (after i) (no_serviced + 1) m'))

unfoldable pub service_events : ℕ → ℤ → (no_events : ℕ) → (ℕ → Timed) → ℕ → Measured → Run Measured
service_events n ls no_events answers fuel m =
    service_from n ls (m.server.vec).size no_events answers fuel 0 0 m >>= λ (no_serviced, m').
    assert_zero (pos (no_events - no_serviced)) >> ok m'

-- What `ppoll` answers, whether `errno` is then EINTR, the events that it writes, and what is answered
-- while they are serviced.
pub record Polled : Type 0 where
  pub no_events : ℤ
  pub eintr : Bool
  pub revents : List ℕ
  pub answers : ℕ → Timed

-- One turn of the loop: the events count as requests before they are serviced.
unfoldable pub poll_turn : ℕ → ℤ → ℕ → Measured → Polled → Run Measured
poll_turn n ls fuel m a =
    if is_negative a.no_events && a.eintr
    then ok m
    else (assert_nonn a.no_events >>= λ no_events.
        service_events n ls no_events a.answers fuel (record {
          server = record m.server {
            vec = record m.server.vec {
              slots = set_revents (m.server.vec).slots (take (m.server.vec).size a.revents);
            };
          };
          bench = sb_requests_performed m.bench (pos no_events);
        }))

unfoldable pub poll_loop : ℕ → ℤ → ℕ → Measured → List Polled → Run Measured
unfolding poll_turn
poll_loop n ls fuel m [] = ok m
poll_loop n ls fuel m (a ∷ turns) = poll_turn n ls fuel m a >>= λ m'. poll_loop n ls fuel m' turns
