-- ===== src/Poll/Stop.antt =====
-- The poll server's `service_loop`, its clean-ups and `main`, around the handlers of Poll.
use linux_modern_io_multiple.Prelude.{
  ℕ, zero, suc, none, Bool, ◌&&◌, not, List, [], ◌∷◌, ◌++◌, get_elem?, take, ltb, if◌then◌else◌,
}
use linux_modern_io_multiple.Prelude.Int.{ℤ, pos, negsuc, eqb_ℤ}
use linux_modern_io_multiple.Prelude.Run.{
  Run, ok, out_of_fuel, ◌>>=◌, ◌>>◌, assert_zero, assert_nonn, from_cell,
}
use linux_modern_io_multiple.Time.{is_negative}
use linux_modern_io_multiple.Net.{
  SetupAnswer, create_ipv4_listening_socket, register_signal_handler,
}
use linux_modern_io_multiple.Pollfd.{Pollfd, Answer, pollfdv_create, pollfdv_free}
use linux_modern_io_multiple.Poll.{
  Server, Service, poll_add_fd, pollin, free_con, after, service_events,
}

-- What the four calls on the signal masks answer.
pub record Masks : Type 0 where
  pub get : ℤ
  pub empty : ℤ
  pub add : ℤ
  pub block : ℤ

-- What `ppoll` answers, whether `errno` is then EINTR, the events that it writes, and what the system
-- answers while they are serviced.
pub record Polled : Type 0 where
  pub no_events : ℤ
  pub eintr : Bool
  pub revents : List ℕ
  pub answers : ℕ → Service

-- `ppoll` writes the `revents` of the entries that it is given, which are those in use.
abbrev pub set_revents : List Pollfd → List ℕ → List Pollfd
set_revents [] rs = []
set_revents (x ∷ xs) [] = x ∷ xs
set_revents (x ∷ xs) (r ∷ rs) = record x { revents = r } ∷ set_revents xs rs

-- One turn of the loop. An answer that is not negative passes the assertion whatever `errno` is.
unfoldable pub poll_turn : ℕ → ℤ → ℕ → Server → Polled → Run Server
poll_turn n ls fuel s a =
    if is_negative a.no_events && a.eintr
    then ok s
    else (assert_nonn a.no_events >>= λ no_events.
        service_events n ls no_events a.answers fuel (record s {
          vec = record s.vec { slots = set_revents (s.vec).slots (take (s.vec).size a.revents) };
        }))

-- The loop turns until the signal handler clears `server_running`, where the list ends.
unfoldable pub poll_loop : ℕ → ℤ → ℕ → Server → List Polled → Run Server
unfolding poll_turn
poll_loop n ls fuel s [] = ok s
poll_loop n ls fuel s (a ∷ turns) = poll_turn n ls fuel s a >>= λ s'. poll_loop n ls fuel s' turns

-- The loop of `do_client_connections_cleanup` at index `i`; `close` is what closing each descriptor
-- answers.
unfoldable pub close_entries : (ℤ → ℤ) → ℤ → ℤ → ℕ → ℕ → Server → Run Server
close_entries close ls timer_fd zero i s = out_of_fuel
close_entries close ls timer_fd (suc fuel) i s =
    let rest = close_entries close ls timer_fd fuel (after i) in
    if not (ltb i (s.vec).size) then ok s else do
      entry ← from_cell (get_elem? (s.vec).slots i)
      (if eqb_ℤ entry.fd ls then rest s else do
        let fd =
            if not (eqb_ℤ timer_fd (negsuc 0)) && eqb_ℤ entry.fd timer_fd
            then timer_fd
            else entry.fd
        assert_zero (close fd)
        private_data ← from_cell (get_elem? (s.vec).pd i)
        s' ← free_con (record s { closed = s.closed ++ (fd ∷ []) }) private_data
        rest s')

unfoldable pub do_client_connections_cleanup : (ℤ → ℤ) → ℤ → ℤ → ℕ → Server → Run Server
unfolding close_entries
do_client_connections_cleanup close ls timer_fd fuel s = close_entries close ls timer_fd fuel 0 s

unfoldable pub do_exit_cleanup : (ℤ → ℤ) → ℤ → Server → Run Server
do_exit_cleanup close ls s =
    assert_zero (close ls)
    >> ok (record s { vec = pollfdv_free s.vec; closed = s.closed ++ (ls ∷ []) })

-- `service_loop`, with the listening socket in the vector before the first turn.
unfoldable pub service_loop :
    ℕ → (ℤ → ℤ) → ℤ → ℕ → Server → Masks → Answer → List Polled → Run Server
unfolding poll_loop do_client_connections_cleanup
service_loop n close ls fuel s m grow turns = do
  assert_zero m.get
  assert_zero m.empty
  assert_zero m.add
  vec ← poll_add_fd s.vec ls pollin 0 grow
  assert_zero m.block
  s' ← poll_loop n ls fuel (record s { vec = vec; timer = negsuc 0 }) turns
  do_client_connections_cleanup close ls s'.timer fuel s'

-- `main`: the vector, the signal handler, the listening socket, the loop and the last clean-up.
unfoldable pub run_server :
    ℕ → ℕ → (ℤ → ℤ) → ℕ → Answer → ℤ → SetupAnswer → Masks → Answer → List Polled → Run Server
unfolding service_loop do_exit_cleanup
run_server n port close fuel created sigaction setup m grow turns = do
  vec ← pollfdv_create created
  register_signal_handler sigaction
  (ls, _) ← create_ipv4_listening_socket port setup
  let s : Server = record { vec = vec; cons = λ p. none; timer = negsuc 0; closed = []; sent = [] }
  s ← service_loop n close (pos ls) fuel s m grow turns
  do_exit_cleanup close (pos ls) s
