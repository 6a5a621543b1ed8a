-- ===== src/Epoll.antt =====
-- code/c/server/epoll/main.c: the connection list and the handlers of the epoll server.
-- The build is the default one, without server-side benchmarking. System calls answer through
-- arguments; `closed` lists the descriptors closed, and `sent` the messages written, in order.
pub mod Cleanup
pub mod Connections
pub mod Events
pub mod Measured
pub mod Quiet
pub mod Stop
use linux_modern_io_multiple.Prelude.{
  ℕ, zero, suc, ◌+◌, Bool, true, false, List, [], ◌∷◌, ◌++◌, Option, some, none, bit_and, bit_or,
  ◌==◌, if◌then◌else◌, not,
}
use linux_modern_io_multiple.Prelude.Int.{ℤ, pos, negsuc, eqb_ℤ}
use linux_modern_io_multiple.Prelude.Run.{
  Run, ok, exited, fault, out_of_fuel, ◌>>=◌, ◌>>◌, assert_zero, assert_nnull, assert_nonn,
}
use linux_modern_io_multiple.Links.{
  Ptr, null, Node, node, Heap, write, load, set_next, set_prev, free, Ends, ends,
}
use linux_modern_io_multiple.Net.{ReadAnswer, read_n_echo, accept_client}

-- `pd_echo_connection_t` but for its links: `buf` has `server_buffer_size` bytes.
pub record Connection : Type 0 where
  pub fd : ℤ
  pub buf_size : ℕ
  pub buf : List ℕ

-- The list's global pointers, the connections allocated, the timer's descriptor (-1 for none), and
-- what was done outside.
pub record Server : Type 0 where
  pub dll : Ends
  pub heap : Heap Connection
  pub timer : ℤ
  pub closed : List ℤ
  pub sent : List (ℤ × List ℕ)

-- `EPOLLIN`, `EPOLLRDHUP`
abbrev pub epollin : ℕ
epollin = 0x001

abbrev pub epollrdhup : ℕ
epollrdhup = 0x2000

unfoldable pub dll_connect_back : Ends → Ptr → Heap Connection → Run (Ends × Heap Connection)
dll_connect_back l con h =
    if l.head == null
    then ok (ends con con, h)
    else (set_prev h con l.tail >>= λ h. ok (ends l.head con, h))

unfoldable pub dll_remove : Ends → Ptr → Heap Connection → Run (Ends × Heap Connection)
dll_remove l con h = do
  n ← load h con
  h ← (if n.next == null then ok h else set_prev h n.next n.prev)
  n ← load h con
  h ← (if n.prev == null then ok h else set_next h n.prev n.next)
  n ← load h con
  ok (ends (if con == l.head then n.next else l.head) (if con == l.tail then n.prev else l.tail), h)

-- `close` answers 0 on success.
unfoldable pub close_client : Server → Ptr → (close : ℤ) → Run Server
close_client s con close = do
  (dll, heap) ← dll_remove s.dll con s.heap
  n ← load heap con
  assert_zero close
  heap ← free heap con
  ok (record s { dll = dll; heap = heap; closed = s.closed ++ (n.payload.fd ∷ []) })

-- What the system answers to the steps of taking in one client: `accept4`, whether its error is
-- EAGAIN, `calloc`, and `epoll_ctl`.
pub record Arrival : Type 0 where
  pub accept4 : ℤ
  pub again : Bool
  pub con : Ptr
  pub epoll_ctl : ℤ

-- A connection of zero bytes, but for its descriptor.
abbrev pub connection : ℤ → List ℕ → Connection
connection fd zeroes = record { fd = fd; buf_size = 0; buf = zeroes }

unfoldable pub epoll_handle_new_client : List ℕ → Server → ℤ → Arrival → Run Server
epoll_handle_new_client zeroes s client_fd a = do
  assert_nnull a.con
  let heap = write s.heap a.con (some (node (connection client_fd zeroes) null null))
  assert_zero a.epoll_ctl
  (dll, heap) ← dll_connect_back s.dll a.con heap
  ok (record s { dll = dll; heap = heap })

-- Until `accept_client` returns -1: the list is what the system answers, round by round.
unfoldable pub epoll_handle_new_clients : List ℕ → Server → List Arrival → Run Server
epoll_handle_new_clients zeroes s [] = out_of_fuel
epoll_handle_new_clients zeroes s (a ∷ rounds) = accept_client a.accept4 a.again >>= λ client_fd.
    if eqb_ℤ client_fd (negsuc 0)
    then ok s
    else (epoll_handle_new_client zeroes s client_fd a >>= λ s'.
        epoll_handle_new_clients zeroes s' rounds)

-- `close_timer`, all that `timer_expired` does in this build.
unfoldable pub close_timer : Server → (close : ℤ) → Run Server
close_timer s close =
    assert_zero close >> ok (record s { closed = s.closed ++ (s.timer ∷ []); timer = negsuc 0 })

-- What an event carries: one of the two holders on the stack, or a connection.
pub data EventPtr : Type 0 where
  listening_holder : EventPtr
  timer_holder : EventPtr
  client : Ptr → EventPtr

-- One event, and what the system answers while it is serviced.
pub record Event : Type 0 where
  pub ptr : EventPtr
  pub events : ℕ
  pub read : ReadAnswer
  pub write : ℤ
  pub close : ℤ
  pub arrivals : List Arrival

-- The branch of `handle_client_event` that reads and echoes.
unfoldable pub echo_client : ℕ → Server → Ptr → ReadAnswer → ℤ → Run Server
echo_client n s con read written = do
  c ← load s.heap con
  e ← read_n_echo n c.payload.buf read written
  let after : Connection = record { fd = c.payload.fd; buf_size = e.read_bytes; buf = e.buf }
  ok (record s {
    heap = write s.heap con (some (node after c.next c.prev));
    sent = s.sent ++ ((if e.read_bytes == 0 then [] else (c.payload.fd, e.sent) ∷ []));
  })

unfoldable pub handle_client_event : ℕ → Server → Ptr → Event → Run Server
handle_client_event n s con ev =
    if not (bit_and ev.events epollrdhup == 0)
    then close_client s con ev.close
    else (if not (bit_and ev.events epollin == 0)
        then echo_client n s con ev.read ev.write
        else ok s)

-- `((struct pd_fd *)ev->data.ptr)->fd`
unfoldable pub event_fd : ℤ → Server → EventPtr → Run ℤ
event_fd ls s listening_holder = ok ls
event_fd ls s timer_holder = ok s.timer
event_fd ls s (client con) = load s.heap con >>= λ n. ok n.payload.fd

-- A pointer that the code takes for a connection.
abbrev pub as_connection : EventPtr → Run Ptr
as_connection (client con) = ok con
as_connection _ = fault

unfoldable pub service_event : ℕ → List ℕ → ℤ → Server → Event → Run Server
service_event n zeroes ls s ev = event_fd ls s ev.ptr >>= λ fd.
    if eqb_ℤ fd ls
    then epoll_handle_new_clients zeroes s ev.arrivals
    else (if eqb_ℤ fd s.timer
        then close_timer s ev.close
        else (as_connection ev.ptr >>= λ con. handle_client_event n s con ev))

unfoldable pub service_events : ℕ → List ℕ → ℤ → Server → List Event → Run Server
service_events n zeroes ls s [] = ok s
service_events n zeroes ls s (ev ∷ evs) =
    service_event n zeroes ls s ev >>= λ s'. service_events n zeroes ls s' evs

-- The loop of the clean-up over the list; `close` is what closing each descriptor answers.
unfoldable pub close_all : (ℤ → ℤ) → ℕ → Server → Ptr → Run Server
close_all close zero s p = out_of_fuel
close_all close (suc k) s p =
    let rest = close_all close k in
    if p == null
    then ok s
    else do n ← load s.heap p; s' ← close_client s p (close n.payload.fd); rest s' n.next

unfoldable pub do_service_loop_cleanup : (ℤ → ℤ) → (epoll_fd : ℕ) → ℕ → Server → Run Server
do_service_loop_cleanup close epoll_fd fuel s = do
  s ← (if eqb_ℤ s.timer (negsuc 0) then ok s else close_timer s (close s.timer))
  assert_zero (close (pos epoll_fd))
  let s = record s { closed = s.closed ++ (pos epoll_fd ∷ []) }
  close_all close fuel s s.dll.head
