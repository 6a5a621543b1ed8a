-- ===== src/Net.antt =====
-- code/c/server/server_utils.c: what the three servers share. Each system call's answer is an
-- argument; `calls` lists the calls that a run makes, with the arguments that the code computes.
pub mod Echo
use linux_modern_io_multiple.Prelude.{
  ℕ, ◌+◌, ◌%◌, ◌/◌, ◌*◌, ◌<◌, Bool, true, false, List, [], ◌∷◌, ◌++◌, length, take, drop, ltb, ◌==◌,
  ◌&&◌, if◌then◌else◌,
}
use linux_modern_io_multiple.Prelude.Int.{ℤ, pos, negsuc}
use linux_modern_io_multiple.Prelude.Run.{Run, ok, exited, ◌>>=◌, ◌>>◌, assert_zero, assert_nonn}
use linux_modern_io_multiple.Time.{is_negative}

abbrev pub default_server_listening_backlog : ℕ
default_server_listening_backlog = 128

-- `sizeof(void *)`, by which a server's buffer is larger than a message.
abbrev pub sizeof_pointer : ℕ
sizeof_pointer = 8

-- `DEFAULT_SERVER_BUFFER_SIZE`
abbrev pub server_buffer_size : ℕ → ℕ
server_buffer_size default_buffer_size = default_buffer_size + sizeof_pointer

-- The calls of `create_ipv4_listening_socket`, in order.
pub data SetupCall : Type 0 where
  socket_inet_stream : SetupCall
  set_nonblock : ℕ → SetupCall
  bind_any : ℕ → (port : ℕ) → SetupCall
  listen : ℕ → (backlog : ℕ) → SetupCall

-- `htons` on a little-endian machine: the two bytes of a port change places.
abbrev pub htons : ℕ → ℕ
htons port = port % 256 * 256 + port / 256 % 256

-- What the kernel answers to each of the calls.
pub record SetupAnswer : Type 0 where
  pub socket : ℤ
  pub fcntl : ℤ
  pub bind : ℤ
  pub listen : ℤ

unfoldable pub create_ipv4_listening_socket : ℕ → SetupAnswer → Run (ℕ × List SetupCall)
create_ipv4_listening_socket port a = do
  socket_fd ← assert_nonn a.socket
  assert_nonn a.fcntl >>= λ _. ok tt
  assert_zero a.bind
  assert_zero a.listen
  ok (
    socket_fd,
    socket_inet_stream
        ∷ set_nonblock socket_fd
        ∷ bind_any socket_fd (htons port)
        ∷ listen socket_fd default_server_listening_backlog
        ∷ [],
  )

-- `create_warmup_timer`: the timer's descriptor.
unfoldable pub create_warmup_timer : (timerfd settime : ℤ) → Run ℕ
create_warmup_timer timerfd settime = do
  timer_fd ← assert_nonn timerfd
  assert_zero settime
  ok timer_fd

-- `server_running`, and the handler that `register_signal_handler` installs for SIGUSR1.
unfoldable pub stop_server_signal_handler : Bool → Bool
stop_server_signal_handler server_running = false

unfoldable pub register_signal_handler : ℤ → Run (Unit {0})
register_signal_handler sigaction = assert_zero sigaction

-- `again` says that `errno` is EAGAIN or EWOULDBLOCK.
unfoldable pub accept_client : (accept4 : ℤ) → (again : Bool) → Run ℤ
accept_client accept4 again =
    if is_negative accept4 && again
    then ok (negsuc 0)
    else (assert_nonn accept4 >>= λ fd. ok (pos fd))

-- What `read` answers: an error, or the bytes that it put into the buffer.
pub data ReadAnswer : Type 0 where
  failed : ReadAnswer
  got : List ℕ → ReadAnswer

-- The buffer once `read` has put bytes into it, from the start.
abbrev pub filled : List ℕ → List ℕ → List ℕ
filled bytes buf = bytes ++ drop (length bytes) buf

-- What `read_n_echo` returns, the buffer after it, and the bytes that it hands to `write`.
pub record Echoed : Type 0 where
  pub read_bytes : ℕ
  pub buf : List ℕ
  pub sent : List ℕ

unfoldable pub read_n_echo :
    (default_buffer_size : ℕ) → List ℕ → ReadAnswer → (write : ℤ) → Run Echoed
read_n_echo n buf failed write = exited
read_n_echo n buf (got bytes) write =
    let read_bytes = length bytes in
    if read_bytes == 0
    then ok (record { read_bytes = 0; buf = filled bytes buf; sent = [] })
    else (if ltb n read_bytes
        then exited
        else (if ltb read_bytes n
            then exited
            else (assert_nonn write >>= λ sent_bytes.
                if ltb sent_bytes n
                then exited
                else ok (record {
                  read_bytes = read_bytes;
                  buf = filled bytes buf;
                  sent = take read_bytes (filled bytes buf);
                }))))
