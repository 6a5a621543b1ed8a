-- ===== src/Client/Conversation.antt =====
-- The client and a server in conversation.
use linux_modern_io_multiple.Prelude.{
  ℕ, zero, suc, ◌≤◌, ◌≡◌, ◌≢◌, refl, arith, List, [], ◌∷◌, ◌++◌, length, take, drop, append-nil,
  true, false, ltb, ◌==◌,
}
use linux_modern_io_multiple.Prelude.Arrays.{take_all}
use linux_modern_io_multiple.Prelude.Int.{ℤ, pos}
use linux_modern_io_multiple.Prelude.Run.{ok, ◌>>=◌, >>=-returned}
use linux_modern_io_multiple.Net.{got, filled, Echoed, read_n_echo}
use linux_modern_io_multiple.Net.Echo.{LongEnough, read_n_echo_message}
use linux_modern_io_multiple.Client.{
  Client, Round, send_message, recv_message, send_n_wait, loop, run_client, Session,
  create_ipv4_socket, connect_to_server,
}

drop_all : (n : ℕ) (xs : List ℕ) → length xs ≤ n → drop n xs ≡ []
drop_all zero [] h = refl
drop_all zero (x ∷ xs) h = absurd (omega arith)
drop_all (suc n) [] h = refl
drop_all (suc n) (x ∷ xs) h = drop_all n xs (omega arith)

loop-endless : (c : Client) (rounds : List Round) (c' : Client) → loop 0 c rounds ≢ ok c'
unfolding loop
loop-endless c [] c' e = cc
loop-endless c (a ∷ rounds) c' e =
    let (c1, _, more) = >>=-returned (send_n_wait c a) _ e in loop-endless c1 rounds c' more

module _ (n : ℕ) (c : Client) (buf : List ℕ) (w : ℤ) where
  -- A round with the server: the client writes its whole buffer, of the length of a message; the
  -- server reads exactly those bytes and echoes them, and its `write` takes at least a message; the
  -- client reads what the server sent. Its buffer is then what it was, and it has nothing to complain
  -- about.
  pub send_n_wait-read_n_echo :
      n ≢ 0
      → length c.buffer ≡ n
      → LongEnough n w
      → (e : Echoed) × (read_n_echo n buf (got (take n c.buffer)) w ≡ ok e)
        × (send_n_wait c (record { write = pos n; read = got e.sent })
            ≡ ok (record c { written = c.written ++ (c.buffer ∷ []) }))
  unfolding send_n_wait send_message recv_message
  send_n_wait-read_n_echo ne len long =
      let whole : take n c.buffer ≡ c.buffer = take_all n c.buffer (omega (arith, len)) in
      (
        record { read_bytes = n; buf = filled c.buffer buf; sent = c.buffer },
        rw whole (read_n_echo_message n buf c.buffer w ne len long),
        simp (
          whole,
          not_short,
          same_length,
          drop_all (length c.buffer) c.buffer (omega arith),
          append-nil,
        ),
      )
    where
      not_short : ltb n (length c.buffer) ≡ false
      not_short = ground (arith, len)

      same_length : (length c.buffer == length c.buffer) ≡ true
      same_length = ground arith

-- Without an argument on the command line, the client does not end but by a failed assertion: it never
-- gets to closing its socket, whatever the calls answer.
pub run_client-endless :
    (port : ℕ) (c : Client) (a : Session) (r : Client × ℕ) → run_client port 1 c a ≢ ok r
unfolding run_client
run_client-endless port c a r e =
    let (_, _, e1) = >>=-returned (create_ipv4_socket a.socket) _ e in
    let (_, _, e2) =
      >>=-returned (connect_to_server port a.inet_pton a.connect >>= λ _. ok tt) _ e1 in
    let (c', ran, _) = >>=-returned (loop 0 c a.rounds) _ e2 in loop-endless c a.rounds c' ran
