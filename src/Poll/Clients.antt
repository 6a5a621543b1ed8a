-- ===== src/Poll/Clients.antt =====
-- One event of a client of the poll server, in terms of the entries of the vector.
use linux_modern_io_multiple.Prelude.{
  ℕ, ◌<◌, ◌≡◌, ◌≢◌, refl, sym, ap, ◌∙◌, arith, true, false, not, bit_and, ◌==◌, List, [], ◌∷◌, ◌++◌,
  some, none, get_elem?, set, length, if◌then◌else◌,
}
use linux_modern_io_multiple.Prelude.Arrays.{swap_remove}
use linux_modern_io_multiple.Prelude.Int.{ℤ, pos, eqb_ℤ-ne, eqb_ℤ-refl}
use linux_modern_io_multiple.Prelude.Run.{ok, ◌>>=◌}
use linux_modern_io_multiple.Net.{got, filled, accept_client}
use linux_modern_io_multiple.Net.Echo.{LongEnough, read_n_echo_message}
use linux_modern_io_multiple.Pollfd.{Ptr, Pollfd, no_fd}
use linux_modern_io_multiple.Pollfd.Invariant.{IsValid}
use linux_modern_io_multiple.Pollfd.Contents.{contents, add_entry_lem}
use linux_modern_io_multiple.Pollfd.Removal.{pollfdv_remove_index-swap_remove}
use linux_modern_io_multiple.Poll.{
  Server, Service, EchoConnection, pollin, pollhup_err, write_con, poll_add_fd,
  poll_handle_new_client, free_con, close_client, echo_client, handle_client_event, clear_revents,
  service_entry,
}
use linux_modern_io_multiple.Poll.Entries.{
  entry-IsAt, cleared, clear_revents_lem, pollfdv_add-room, get_elem?-append_some,
}

module _ (n : ℕ) (ls : ℤ) (s : Server) (i : ℕ) (ev : Pollfd) (q : Ptr) (a : Service) where
  -- An entry that is neither the listening socket nor the timer is a client's.
  client_entry :
      ev.fd ≢ ls
      → ev.fd ≢ s.timer
      → service_entry n ls s i ev a ≡ (
          handle_client_event n s i a >>= λ (removed, s').
          if removed
          then ok (true, s')
          else (clear_revents (s.vec).base i s' >>= λ s''. ok (false, s'')))
  unfolding service_entry
  client_entry not_ls not_timer = simp (eqb_ℤ-ne ev.fd ls not_ls, eqb_ℤ-ne ev.fd s.timer not_timer)

  -- A client's message comes back to it: of an entry in use that says data and no hang-up, one whole
  -- message is read and exactly its bytes are written to the same descriptor; the entry's `revents`
  -- is cleared, and all other entries, connections and descriptors stay.
  pub service_entry-echo :
      (con : EchoConnection) (bytes : List ℕ)
      → IsValid s.vec
      → i < (s.vec).size
      → get_elem? (contents s.vec) i ≡ some (ev, q)
      → ev.fd ≢ ls
      → ev.fd ≢ s.timer
      → bit_and ev.revents pollhup_err ≡ 0
      → bit_and ev.revents pollin ≢ 0
      → s.cons q ≡ some con
      → n ≢ 0
      → a.read ≡ got bytes
      → length bytes ≡ n
      → LongEnough n a.write
      → (s' : Server) × (service_entry n ls s i ev a ≡ ok (false, s'))
        × IsValid s'.vec
        × (contents s'.vec ≡ set (contents s.vec) i (cleared ev, q))
        × (s'.sent ≡ s.sent ++ ((ev.fd, bytes) ∷ []))
        × (s'.closed ≡ s.closed)
        × (s'.cons q ≡ some (record con { buf = filled bytes con.buf }))
        × ((p : Ptr) → p ≢ q → s'.cons p ≡ s.cons p)
  unfolding handle_client_event echo_client
  service_entry-echo con bytes iv h e not_ls not_timer no_hup readable here ne0 r whole long =
      let at = entry-IsAt s.vec i ev q h e in
      let echoed = record s {
        cons =
            write_con s.cons q
              (some (record { buf_size = con.buf_size; buf = filled bytes con.buf }));
        sent = s.sent ++ ((ev.fd, bytes) ∷ []);
      } in
      let (v, ran, iv', same) = clear_revents_lem echoed i ev q iv h e in
      (
        record echoed { vec = v },
        client_entry not_ls not_timer
            ∙ simp (
              at.slot,
              no_hup,
              ready,
              at.pd,
              here,
              r,
              read_n_echo_message n con.buf bytes a.write ne0 whole long,
              some_read,
              ran,
            ),
        iv',
        same,
        refl,
        refl,
        (unfold write_con in ground arith),
        λ p other. (unfold write_con in ground arith),
      )
    where
      ready : not (bit_and ev.revents pollin == 0) ≡ true
      ready = ground arith

      some_read : (n == 0) ≡ false
      some_read = ground arith

  -- A client that hangs up, or whose connection has an error, is closed: its descriptor, its entry,
  -- whose place the last entry takes, and its connection's memory; the loop looks at the same index
  -- again. Its `close` succeeds.
  pub service_entry-hangup :
      (con : EchoConnection)
      → IsValid s.vec
      → i < (s.vec).size
      → get_elem? (contents s.vec) i ≡ some (ev, q)
      → ev.fd ≢ ls
      → ev.fd ≢ s.timer
      → ev.fd ≢ no_fd
      → bit_and ev.revents pollhup_err ≢ 0
      → q ≢ 0
      → s.cons q ≡ some con
      → a.close ≡ pos 0
      → (s' : Server) × (service_entry n ls s i ev a ≡ ok (true, s'))
        × IsValid s'.vec
        × (contents s'.vec ≡ swap_remove i (contents s.vec))
        × (s'.closed ≡ s.closed ++ (ev.fd ∷ []))
        × (s'.sent ≡ s.sent)
        × (s'.cons q ≡ none)
        × ((p : Ptr) → p ≢ q → s'.cons p ≡ s.cons p)
  unfolding handle_client_event close_client free_con
  service_entry-hangup con iv h e not_ls not_timer in_use hup ne here closes =
      let at = entry-IsAt s.vec i ev q h e in
      let (v, ran, iv', same, _, _, _) =
        pollfdv_remove_index-swap_remove s.vec i ev q iv h e in_use in
      (
        record s { vec = v; cons = write_con s.cons q none; closed = s.closed ++ (ev.fd ∷ []) },
        client_entry not_ls not_timer ∙ simp (at.slot, hung_up, closes, at.pd, not_null, here, ran),
        iv',
        same,
        refl,
        refl,
        (unfold write_con in ground arith),
        λ p other. (unfold write_con in ground arith),
      )
    where
      hung_up : not (bit_and ev.revents pollhup_err == 0) ≡ true
      hung_up = ground arith

      not_null : (q == 0) ≡ false
      not_null = ground arith

  -- With room in the vector, an event on the listening socket appends an entry for the descriptor
  -- that `accept_client` returned, also where that is -1, with a fresh connection as its private
  -- data; the listening entry's `revents` is cleared, and all else stays.
  pub service_entry-accepted :
      (fd : ℤ)
      → IsValid s.vec
      → i < (s.vec).size
      → (s.vec).size < (s.vec).capacity
      → get_elem? (contents s.vec) i ≡ some (ev, q)
      → ev.fd ≡ ls
      → bit_and ev.revents pollin ≢ 0
      → accept_client a.accept4 a.again ≡ ok fd
      → a.con ≢ 0
      → (s' : Server) × (service_entry n ls s i ev a ≡ ok (false, s'))
        × IsValid s'.vec
        × (contents s'.vec
            ≡ set
                (contents s.vec ++ ((record { fd = fd; events = pollin; revents = 0 }, a.con) ∷ []))
                i
                (cleared ev, q))
        × (s'.cons a.con ≡ some (record { buf_size = 0; buf = a.content }))
        × ((p : Ptr) → p ≢ a.con → s'.cons p ≡ s.cons p)
        × (s'.closed ≡ s.closed)
        × (s'.sent ≡ s.sent)
  unfolding service_entry poll_handle_new_client poll_add_fd
  service_entry-accepted fd iv h room e listening readable accepted ne =
      let entry : Pollfd = record { fd = fd; events = pollin; revents = 0 } in
      let (v, added, iv', more, base, size) = add_entry_lem s.vec entry a.con iv room in
      let s1 = record s {
        vec = v;
        cons = write_con s.cons a.con (some (record { buf_size = 0; buf = a.content }));
      } in
      let (v', ran, iv'', same) = clear_revents_lem s1 i ev q iv' (omega (arith, size, h)) (
        ap (λ t. get_elem? t i) more
        ∙ get_elem?-append_some (contents s.vec) ((entry, a.con) ∷ []) i e) in
      (
        record s1 { vec = v' },
        simp (
          listening,
          eqb_ℤ-refl ls,
          ready,
          accepted,
          not_null,
          pollfdv_add-room s.vec entry a.con a.grow room ∙ added,
          ap (λ b. clear_revents b i s1) (sym base) ∙ ran,
        ),
        iv'',
        same ∙ ap (λ t. set t i (cleared ev, q)) more,
        (unfold write_con in ground arith),
        (λ p other. (unfold write_con in ground arith)),
        refl,
        refl,
      )
    where
      ready : not (bit_and ev.revents pollin == 0) ≡ true
      ready = ground arith

      not_null : (a.con == 0) ≡ false
      not_null = ground arith
