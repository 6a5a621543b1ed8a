-- ===== src/Client.antt =====
-- code/c/client/main.c. What the system calls answer are arguments. The client keeps the buffer and what
-- it handed to `write`; `complaints` counts the lines that it logs on short transfers, after which it
-- goes on. The build is that of the request-response mode.
pub mod Conversation
use linux_modern_io_multiple.Prelude.{
  ℕ, ◌+◌, ◌-◌, List, [], ◌∷◌, ◌++◌, length, take, ltb, not, ◌==◌, if◌then◌else◌,
}
use linux_modern_io_multiple.Prelude.Int.{ℤ, pos, ◌-ℤ◌}
use linux_modern_io_multiple.Prelude.Run.{Run, ok, exited, out_of_fuel, ◌>>=◌, ◌>>◌, assert_nonn}
use linux_modern_io_multiple.Net.{ReadAnswer, failed, got, filled, htons}

-- The global `buffer`, and what was done outside.
pub record Client : Type 0 where
  pub buffer : List ℕ
  pub written : List (List ℕ)
  pub complaints : ℕ

unfoldable pub create_ipv4_socket : (socket : ℤ) → Run ℕ
create_ipv4_socket socket = assert_nonn socket

-- The port as it stands in the address, handed to `connect`.
unfoldable pub connect_to_server : (port : ℕ) → (inet_pton connect : ℤ) → Run ℕ
connect_to_server port inet_pton connect = do
  assert_nonn (inet_pton -ℤ pos 1) >>= λ _. ok tt
  assert_nonn connect >>= λ _. ok tt
  ok (htons port)

-- `write` answers how many bytes of the buffer it took.
unfoldable pub send_message : Client → (write : ℤ) → Run Client
send_message c write = assert_nonn write >>= λ rc.
    let sent = record c { written = c.written ++ (take rc c.buffer ∷ []) } in
    if ltb rc (length c.buffer) then ok (record sent { complaints = c.complaints + 1 }) else ok sent

unfoldable pub recv_message : Client → ReadAnswer → Run Client
recv_message c failed = exited
recv_message c (got bytes) =
    let received = record c { buffer = filled bytes c.buffer } in
    if not (length bytes == length c.buffer)
    then ok (record received { complaints = c.complaints + 1 })
    else ok received

-- What the calls of one round answer.
pub record Round : Type 0 where
  pub write : ℤ
  pub read : ReadAnswer

unfoldable pub send_n_wait : Client → Round → Run Client
unfolding send_message recv_message
send_n_wait c a = send_message c a.write >>= λ c'. recv_message c' a.read

-- Round by round, as the list says, in request-response mode.
unfoldable pub loop : (single_shot : ℕ) → Client → List Round → Run Client
unfolding send_n_wait
loop single_shot c [] = out_of_fuel
loop single_shot c (a ∷ rounds) = send_n_wait c a >>= λ c'.
    let rest = loop single_shot c' rounds in if not (single_shot == 0) then ok c' else rest

-- What the calls of `main` answer, in order; `rounds` are those of the loop.
pub record Session : Type 0 where
  pub socket : ℤ
  pub inet_pton : ℤ
  pub connect : ℤ
  pub rounds : List Round

-- The client at the end, and the descriptor that is closed, where `argc` is 1 or more.
unfoldable pub run_client : (port argc : ℕ) → Client → Session → Run (Client × ℕ)
unfolding create_ipv4_socket connect_to_server loop
run_client port argc c a = do
  socket_fd ← create_ipv4_socket a.socket
  connect_to_server port a.inet_pton a.connect >>= λ _. ok tt
  c' ← loop (argc - 1) c a.rounds
  ok (c', socket_fd)
