-- ===== src/Epoll/Stop.antt =====
-- The epoll server's set-up, `service_loop`, last clean-up and `main`, around the handlers of Epoll.
use linux_modern_io_multiple.Prelude.{
  ℕ, ◌^◌, Bool, List, [], ◌∷◌, ◌++◌, none, bit_or, if◌then◌else◌,
}
use linux_modern_io_multiple.Prelude.Int.{ℤ, pos, negsuc}
use linux_modern_io_multiple.Prelude.Run.{Run, ok, exited, ◌>>=◌, ◌>>◌, assert_zero, assert_nonn}
use linux_modern_io_multiple.Links.{null, ends}
use linux_modern_io_multiple.Net.{
  SetupAnswer, create_ipv4_listening_socket, register_signal_handler,
}
use linux_modern_io_multiple.Poll.Stop.{Masks}
use linux_modern_io_multiple.Epoll.{
  Server, Event, EventPtr, listening_holder, timer_holder, epollin, service_events,
  do_service_loop_cleanup,
}

-- `EPOLLET`
abbrev pub epollet : ℕ
epollet = 2 ^ 31

-- A registration: the descriptor, the events, and what an event carries.
pub record Registered : Type 0 where
  pub fd : ℤ
  pub events : ℕ
  pub ptr : EventPtr

unfoldable pub create_epoll : (epoll_create1 : ℤ) → Run ℕ
create_epoll epoll_create1 = assert_nonn epoll_create1

unfoldable pub epoll_add_listening_socket : ℤ → (epoll_ctl : ℤ) → Run Registered
epoll_add_listening_socket ls epoll_ctl =
    assert_zero epoll_ctl
    >> ok (record { fd = ls; events = bit_or epollin epollet; ptr = listening_holder })

unfoldable pub epoll_add_timer : ℤ → (epoll_ctl : ℤ) → Run Registered
epoll_add_timer timer epoll_ctl =
    assert_zero epoll_ctl
    >> ok (record { fd = timer; events = bit_or epollin epollet; ptr = timer_holder })

-- What `epoll_pwait` answers: a negative number, whether `errno` is then EINTR; or the events.
pub data Waited : Type 0 where
  unready : (eintr : Bool) → Waited
  ready : List Event → Waited

-- One turn of the loop.
unfoldable pub epoll_turn : ℕ → List ℕ → ℤ → Server → Waited → Run Server
epoll_turn n zeroes ls s (unready eintr) = if eintr then ok s else exited
epoll_turn n zeroes ls s (ready evs) = service_events n zeroes ls s evs

-- The loop turns until the signal handler clears `server_running`, where the list ends.
unfoldable pub epoll_loop : ℕ → List ℕ → ℤ → Server → List Waited → Run Server
unfolding epoll_turn
epoll_loop n zeroes ls s [] = ok s
epoll_loop n zeroes ls s (a ∷ turns) =
    epoll_turn n zeroes ls s a >>= λ s'. epoll_loop n zeroes ls s' turns

-- What the calls of `service_loop` up to its loop answer.
pub record Opened : Type 0 where
  pub epoll_create1 : ℤ
  pub masks : Masks
  pub epoll_ctl : ℤ

unfoldable pub service_loop :
    ℕ → List ℕ → (ℤ → ℤ) → ℤ → ℕ → Server → Opened → List Waited → Run Server
unfolding create_epoll epoll_add_listening_socket epoll_loop
service_loop n zeroes close ls fuel s a turns = do
  epoll_fd ← create_epoll a.epoll_create1
  assert_zero a.masks.get
  assert_zero a.masks.empty
  assert_zero a.masks.add
  epoll_add_listening_socket ls a.epoll_ctl >>= λ _. ok tt
  assert_zero a.masks.block
  s' ← epoll_loop n zeroes ls (record s { timer = negsuc 0 }) turns
  do_service_loop_cleanup close epoll_fd fuel s'

unfoldable pub do_exit_cleanup : (ℤ → ℤ) → ℤ → Server → Run Server
do_exit_cleanup close ls s =
    assert_zero (close ls) >> ok (record s { closed = s.closed ++ (ls ∷ []) })

-- Nothing is allocated, and no client is known.
abbrev pub no_clients : Server
no_clients = record {
  dll = ends null null;
  heap = λ p. none;
  timer = negsuc 0;
  closed = [];
  sent = [];
}

-- `main`: the signal handler, the listening socket, the loop and the last clean-up.
unfoldable pub run_server :
    ℕ → List ℕ → ℕ → (ℤ → ℤ) → ℕ → ℤ → SetupAnswer → Opened → List Waited → Run Server
unfolding service_loop do_exit_cleanup
run_server n zeroes port close fuel sigaction setup a turns = do
  register_signal_handler sigaction
  (ls, _) ← create_ipv4_listening_socket port setup
  s ← service_loop n zeroes close (pos ls) fuel no_clients a turns
  do_exit_cleanup close (pos ls) s
