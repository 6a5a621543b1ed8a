-- ===== src/Epoll/Events.antt =====
-- One event of a client, from the event loop down to the list and the socket.
use linux_modern_io_multiple.Prelude.{
  ℕ, ◌≡◌, ◌≢◌, refl, arith, true, ◌==◌, List, [], ◌∷◌, ◌++◌, some, none, length, bit_and, not, ◌∙◌,
}
use linux_modern_io_multiple.Prelude.Int.{ℤ, pos, eqb_ℤ-ne}
use linux_modern_io_multiple.Prelude.Run.{ok}
use linux_modern_io_multiple.Links.{Ptr, null, Node, node, write}
use linux_modern_io_multiple.Links.Chain.{Cells, load-ok, eq_self, not_null, last}
use linux_modern_io_multiple.Net.{ReadAnswer, got, filled}
use linux_modern_io_multiple.Net.Echo.{LongEnough, read_n_echo_message}
use linux_modern_io_multiple.Epoll.{
  Connection, Server, Event, client, epollin, epollrdhup, echo_client, handle_client_event,
  service_event, close_client, event_fd,
}
use linux_modern_io_multiple.Epoll.Connections.{IsBackList}
use linux_modern_io_multiple.Epoll.Cleanup.{close_client_lem, member}

zero_test : (n : ℕ) → n ≢ 0 → not (n == 0) ≡ true
zero_test n h = ground arith

-- The loop takes an event for a client's by its descriptor.
client_event :
    (n : ℕ) (zeroes : List ℕ) (ls : ℤ) (s : Server) (ev : Event) (p : Ptr) (x : Node Connection)
    → ev.ptr ≡ client p
    → p ≢ null
    → s.heap p ≡ some x
    → x.payload.fd ≢ ls
    → x.payload.fd ≢ s.timer
    → service_event n zeroes ls s ev ≡ handle_client_event n s p ev
unfolding service_event event_fd
client_event n zeroes ls s ev p x at ne here not_ls not_timer = simp (
  at,
  load-ok s.heap p x ne here,
  eqb_ℤ-ne x.payload.fd ls not_ls,
  eqb_ℤ-ne x.payload.fd s.timer not_timer,
)

handle_hangup :
    (n : ℕ) (s : Server) (p : Ptr) (ev : Event)
    → bit_and ev.events epollrdhup ≢ 0
    → handle_client_event n s p ev ≡ close_client s p ev.close
unfolding handle_client_event
handle_hangup n s p ev hup = rw (zero_test (bit_and ev.events epollrdhup) hup)

handle_readable :
    (n : ℕ) (s : Server) (p : Ptr) (ev : Event)
    → bit_and ev.events epollrdhup ≡ 0
    → bit_and ev.events epollin ≢ 0
    → handle_client_event n s p ev ≡ echo_client n s p ev.read ev.write
unfolding handle_client_event
handle_readable n s p ev hup readable = rw (hup, zero_test (bit_and ev.events epollin) readable)

-- The state after one message was echoed.
abbrev after : ℕ → Server → Ptr → Connection → Ptr → Ptr → List ℕ → Server
after n s p c next prev bytes = record s {
  heap =
      write s.heap p
        (some (node (record { fd = c.fd; buf_size = n; buf = filled bytes c.buf }) next prev));
  sent = s.sent ++ ((c.fd, bytes) ∷ []);
}

echo_client_lem :
    (n : ℕ) (s : Server) (p : Ptr) (read : ReadAnswer) (written : ℤ) (c : Connection)
    (next prev : Ptr) (bytes : List ℕ)
    → n ≢ 0
    → p ≢ null
    → s.heap p ≡ some (node c next prev)
    → read ≡ got bytes
    → length bytes ≡ n
    → LongEnough n written
    → echo_client n s p read written ≡ ok (after n s p c next prev bytes)
unfolding echo_client
echo_client_lem n s p read written c next prev bytes ne0 ne here r whole long = simp (
  load-ok s.heap p (node c next prev) ne here,
  r,
  read_n_echo_message n c.buf bytes written ne0 whole long,
  not_null n ne0,
)

-- A client's message comes back to it: of an event that says data and no hang-up, on a connection
-- that is neither the listening socket nor the timer, one whole message is read, and exactly its
-- bytes are written to the same descriptor; no connection is closed, and the message stays in that
-- connection's buffer, all other memory being as it was.
pub service_event-echo :
    (n : ℕ) (zeroes : List ℕ) (ls : ℤ) (s : Server) (ev : Event) (p : Ptr) (c : Connection)
    (next prev : Ptr) (bytes : List ℕ)
    → n ≢ 0
    → ev.ptr ≡ client p
    → p ≢ null
    → s.heap p ≡ some (node c next prev)
    → c.fd ≢ ls
    → c.fd ≢ s.timer
    → bit_and ev.events epollrdhup ≡ 0
    → bit_and ev.events epollin ≢ 0
    → ev.read ≡ got bytes
    → length bytes ≡ n
    → LongEnough n ev.write
    → (s' : Server) × (service_event n zeroes ls s ev ≡ ok s')
      × (s'.sent ≡ s.sent ++ ((c.fd, bytes) ∷ []))
      × (s'.closed ≡ s.closed)
      × (s'.dll ≡ s.dll)
      × (s'.heap p ≡ some (node (record c { buf_size = n; buf = filled bytes c.buf }) next prev))
      × ((q : Ptr) → q ≢ p → s'.heap q ≡ s.heap q)
service_event-echo n zeroes ls s ev p c next prev bytes ne0 at ne here o o' hup readable r whole
      long =
    (
      echoed,
      client_event n zeroes ls s ev p (node c next prev) at ne here o o'
          ∙ handle_readable n s p ev hup readable
          ∙ echo_client_lem n s p ev.read ev.write c next prev bytes ne0 ne here r whole long,
      refl,
      refl,
      refl,
      (unfold write in rw (eq_self p)),
      λ q off. (unfold write in ground arith),
    )
  where
    echoed : Server
    echoed = after n s p c next prev bytes

-- A client that hangs up, on a connection that is neither the listening socket nor the timer, is
-- closed where `close` succeeds, its memory given back, and all other memory left as it is,
-- whether or not the event also says that there is data.
pub service_event-hangup :
    (n : ℕ) (zeroes : List ℕ) (ls : ℤ) (s : Server) (ev : Event) (xs ys : Cells Connection)
    (p : Ptr) (c : Connection)
    → IsBackList s (xs ++ ((p, c) ∷ ys))
    → ev.ptr ≡ client p
    → c.fd ≢ ls
    → c.fd ≢ s.timer
    → bit_and ev.events epollrdhup ≢ 0
    → ev.close ≡ pos 0
    → (s' : Server) × (service_event n zeroes ls s ev ≡ ok s')
      × (s'.closed ≡ s.closed ++ (c.fd ∷ []))
      × (s'.sent ≡ s.sent)
      × (s'.heap p ≡ none)
      × ((q : Ptr) → q ≢ p → s'.heap q ≡ s.heap q)
service_event-hangup n zeroes ls s ev xs ys p c il at o o' hup closes =
    let m = member s.heap null xs ys p c il.chain in
    let (s', ran, closed, sent, freed, same) = close_client_lem s xs ys p c il in
    (
      s',
      client_event n zeroes ls s ev p (node c null (last null xs)) at m.ne m.here o o'
          ∙ handle_hangup n s p ev hup
          ∙ rw closes ran,
      closed,
      sent,
      freed,
      same,
    )
