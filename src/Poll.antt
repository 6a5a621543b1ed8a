-- ===== src/Poll.antt =====
-- code/c/server/poll/main.c: the event handlers of the poll server, in the build without server-side
-- benchmarking. `pollfdv` is a vector of Pollfd; the private data of a client's entry is the address
-- of its connection. System calls and allocations answer through arguments.
pub mod Cleanup
pub mod Clients
pub mod Entries
pub mod Growing
pub mod Loop
pub mod Measured
pub mod Quiet
pub mod Readiness
pub mod Round
pub mod Ready
pub mod Serviced
pub mod Serving
pub mod Spare
pub mod Stop
use linux_modern_io_multiple.Prelude.{
  ℕ, zero, suc, ◌+◌, ◌-◌, ◌%◌, ◌^◌, Bool, true, false, ◌&&◌, not, List, [], ◌∷◌, ◌++◌, Option, some,
  none, get_elem?, set, ltb, bit_and, ◌==◌, if◌then◌else◌,
}
use linux_modern_io_multiple.Prelude.Int.{ℤ, pos, negsuc, eqb_ℤ}
use linux_modern_io_multiple.Prelude.Run.{
  Run, ok, exited, fault, out_of_fuel, ◌>>=◌, ◌>>◌, assert_zero, assert_nnull, from_cell,
}
use linux_modern_io_multiple.Net.{ReadAnswer, read_n_echo, accept_client}
use linux_modern_io_multiple.Pollfd.{
  Ptr, Pollfd, PollfdVector, Answer, store, pollfdv_add, pollfdv_remove_index,
}

-- `pd_echo_connection_t`
pub record EchoConnection : Type 0 where
  pub buf_size : ℕ
  pub buf : List ℕ

-- `pollfdv`, the connections allocated, the timer's descriptor (-1 for none), and what was done
-- outside: the descriptors closed and the messages written.
pub record Server : Type 0 where
  pub vec : PollfdVector
  pub cons : Ptr → Option EchoConnection
  pub timer : ℤ
  pub closed : List ℤ
  pub sent : List (ℤ × List ℕ)

-- What the system answers while one event is serviced: `accept4` and whether its error is EAGAIN,
-- `malloc` with what it leaves in the memory, `realloc`, `read`, `write` and `close`.
pub record Service : Type 0 where
  pub accept4 : ℤ
  pub again : Bool
  pub con : Ptr
  pub content : List ℕ
  pub grow : Answer
  pub read : ReadAnswer
  pub write : ℤ
  pub close : ℤ

-- `POLLIN`, and `POLLHUP | POLLERR`
abbrev pub pollin : ℕ
pollin = 0x001

abbrev pub pollhup_err : ℕ
pollhup_err = 0x018

unfoldable pub write_con :
    (Ptr → Option EchoConnection) → Ptr → Option EchoConnection → Ptr → Option EchoConnection
write_con cons p c q = if q == p then c else cons q

unfoldable pub poll_add_fd : PollfdVector → ℤ → (poll_events : ℕ) → Ptr → Answer → Run PollfdVector
poll_add_fd v fd poll_events private_data grow =
    pollfdv_add v (record { fd = fd; events = poll_events; revents = 0 }) private_data grow

-- `accept_client` may return -1, which is not tested.
unfoldable pub poll_handle_new_client : Server → Service → Run Server
unfolding poll_add_fd
poll_handle_new_client s a = do
  client_fd ← accept_client a.accept4 a.again
  assert_nnull a.con
  let con : EchoConnection = record { buf_size = 0; buf = a.content }
  vec ← poll_add_fd s.vec client_fd pollin a.con a.grow
  ok (record s { vec = vec; cons = write_con s.cons a.con (some con) })

-- `free`, which takes NULL.
unfoldable pub free_con : Server → Ptr → Run Server
free_con s p =
    if p == 0
    then ok s
    else (from_cell (s.cons p) >>= λ _. ok (record s { cons = write_con s.cons p none }))

unfoldable pub close_client : Server → ℕ → (close : ℤ) → Run Server
close_client s index close = do
  entry ← from_cell (get_elem? (s.vec).slots index)
  assert_zero close
  private_data ← from_cell (get_elem? (s.vec).pd index)
  s ← free_con (record s { closed = s.closed ++ (entry.fd ∷ []) }) private_data
  vec ← pollfdv_remove_index s.vec index
  ok (record s { vec = vec })

-- The branch of `handle_client_event` that reads and echoes.
unfoldable pub echo_client : ℕ → Server → ℕ → Pollfd → Service → Run (Bool × Server)
echo_client n s index entry a = do
  private_data ← from_cell (get_elem? (s.vec).pd index)
  con ← from_cell (s.cons private_data)
  e ← read_n_echo n con.buf a.read a.write
  let s' = record s {
    cons = write_con s.cons private_data (some (record { buf_size = con.buf_size; buf = e.buf }));
    sent = s.sent ++ (if e.read_bytes == 0 then [] else (entry.fd, e.sent) ∷ []);
  }
  (if e.read_bytes == 0
      then (close_client s' index a.close >>= λ s''. ok (true, s''))
      else ok (false, s'))

-- The Boolean is `removed_client`.
unfoldable pub handle_client_event : ℕ → Server → ℕ → Service → Run (Bool × Server)
handle_client_event n s index a = from_cell (get_elem? (s.vec).slots index) >>= λ entry.
    if not (bit_and entry.revents pollhup_err == 0)
    then (close_client s index a.close >>= λ s'. ok (true, s'))
    else (if not (bit_and entry.revents pollin == 0)
        then echo_client n s index entry a
        else ok (false, s))

-- `ev->revents = 0`, where `ev` was taken at index `i` of the array at `base`: the vector may have
-- moved to another array since, and the old one is freed then.
unfoldable pub clear_revents : ℕ → ℕ → Server → Run Server
clear_revents base i s = if not ((s.vec).base == base) then fault else do
  entry ← from_cell (get_elem? (s.vec).slots i)
  slots ← store (s.vec).slots i (record entry { revents = 0 })
  ok (record s { vec = record s.vec { slots = slots } })

-- `close_timer`, which is all that `timer_expired` does in this build, and the removal after it.
unfoldable pub expire_timer : Server → ℕ → (close : ℤ) → Run Server
expire_timer s i close = do
  assert_zero close
  vec ← pollfdv_remove_index s.vec i
  ok (record s { vec = vec; closed = s.closed ++ (s.timer ∷ []); timer = negsuc 0 })

-- The body of the loop for an entry that is ready; the Boolean says that the entry was removed, and
-- that another one may stand at its index.
unfoldable pub service_entry : ℕ → ℤ → Server → ℕ → Pollfd → Service → Run (Bool × Server)
service_entry n ls s i ev a =
    let base = (s.vec).base in
    let readable = not (bit_and ev.revents pollin == 0) in
    if eqb_ℤ ev.fd ls && readable
    then (poll_handle_new_client s a >>= λ s'. clear_revents base i s' >>= λ s''. ok (false, s''))
    else (if eqb_ℤ ev.fd s.timer && readable
        then (expire_timer s i a.close >>= λ s'. ok (true, s'))
        else (handle_client_event n s i a >>= λ (removed, s').
            if removed
            then ok (true, s')
            else (clear_revents base i s' >>= λ s''. ok (false, s''))))

-- `--i` in `uint32_t`
abbrev pub before : ℕ → ℕ
before i = (i + (2 ^ 32 - 1)) % 2 ^ 32

abbrev pub after : ℕ → ℕ
after i = (i + 1) % 2 ^ 32

module _ (n : ℕ) (ls : ℤ) (size no_events : ℕ) (answers : ℕ → Service) where
  -- The loop of `service_events` at index `i`; `answers` says what the system answers while the
  -- events are serviced, by their number. Returned is `no_serviced`.
  unfoldable pub service_from : ℕ → ℕ → ℕ → Server → Run (ℕ × Server)
  service_from zero i no_serviced s = out_of_fuel
  service_from (suc fuel) i no_serviced s =
      let rest = service_from fuel in
      if not (ltb i size && ltb no_serviced no_events)
      then ok (no_serviced, s)
      else (from_cell (get_elem? (s.vec).slots i) >>= λ ev.
          if ev.revents == 0
          then rest (after i) no_serviced s
          else (service_entry n ls s i ev (answers no_serviced) >>= λ (removed, s').
              if removed
              then rest (after (before i)) (no_serviced + 1) s'
              else rest (after i) (no_serviced + 1) s'))

-- The difference at the end is not negative.
unfoldable pub service_events : ℕ → ℤ → (no_events : ℕ) → (ℕ → Service) → ℕ → Server → Run Server
service_events n ls no_events answers fuel s =
    service_from n ls (s.vec).size no_events answers fuel 0 0 s >>= λ (no_serviced, s').
    assert_zero (pos (no_events - no_serviced)) >> ok s'
