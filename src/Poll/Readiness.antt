-- ===== src/Poll/Readiness.antt =====
-- The branches of the body of the loop of `service_events`, and how many entries are ready then.
use linux_modern_io_multiple.Prelude.{
  ℕ, ◌+◌, ◌<◌, ◌≡◌, ◌≢◌, ◌∙◌, refl, sym, ap, subst, arith, Bool, true, false, ◌&&◌, not, [], ◌++◌,
  append-nil, some, get_elem?, set, bit_and, ◌==◌, if◌then◌else◌,
}
use linux_modern_io_multiple.Prelude.Int.{ℤ, eqb_ℤ}
use linux_modern_io_multiple.Prelude.Run.{
  ok, ◌>>=◌, assert_zero, assert_nnull, from_cell, Yields, Yields-bind, Yields-chain, Yields-if,
  Yields-ok,
}
use linux_modern_io_multiple.Net.{read_n_echo, accept_client}
use linux_modern_io_multiple.Pollfd.{Ptr, Pollfd, PollfdVector, pollfdv_remove_index, no_fd}
use linux_modern_io_multiple.Pollfd.Invariant.{IsValid}
use linux_modern_io_multiple.Pollfd.Contents.{contents}
use linux_modern_io_multiple.Poll.{
  Server, Service, pollin, pollhup_err, poll_add_fd, poll_handle_new_client, close_client,
  echo_client, handle_client_event, clear_revents, expire_timer, service_entry,
}
use linux_modern_io_multiple.Poll.Entries.{cleared, clear_revents_lem, get_elem?-append_some}
use linux_modern_io_multiple.Poll.Ready.{ready, weight}
use linux_modern_io_multiple.Poll.Spare.{Spare, clear-size}
use linux_modern_io_multiple.Poll.Serviced.{
  Removed, Extended, Kept, Outcome, Handled, add-Extended, remove-Removed, close-Removed,
}
use linux_modern_io_multiple.Poll.Ready.{ready-append, ready-set, ready-swap_remove}

module _ (v : PollfdVector) (i : ℕ) (ev : Pollfd) (q : Ptr) (iv : IsValid v) (h : i < v.size)
    (at : get_elem? (contents v) i ≡ some (ev, q)) (open_fd : ev.fd ≢ no_fd) where
  echo-Handled :
      (n : ℕ) (s : Server) (entry : Pollfd) (a : Service)
      → s.vec ≡ v
      → Yields (Handled v i ev q) (echo_client n s i entry a)
  unfolding echo_client
  echo-Handled n s entry a e = Yields-bind _ (from_cell (get_elem? (s.vec).pd i)) _ (λ p.
      Yields-bind _ (from_cell (s.cons p)) _ (λ con.
        Yields-bind _ (read_n_echo n con.buf a.read a.write) _ (λ echoed.
          Yields-if (Handled v i ev q) (echoed.read_bytes == 0) _ _
            (Yields-chain (λ (s' : Server). Removed v i (ev, q) s'.vec) (Handled v i ev q) _ _
              (close-Removed v i ev q iv h at open_fd _ a.close e) (λ s' gone. gone))
            e)))

  handle-Handled :
      (n : ℕ) (s : Server) (a : Service)
      → s.vec ≡ v
      → Yields (Handled v i ev q) (handle_client_event n s i a)
  unfolding handle_client_event
  handle-Handled n s a e = Yields-bind _ (from_cell (get_elem? (s.vec).slots i)) _ (λ entry.
      let echo =
        if not (bit_and entry.revents pollin == 0)
        then echo_client n s i entry a
        else ok (false, s) in
      Yields-if (Handled v i ev q) (not (bit_and entry.revents pollhup_err == 0)) _ echo
        (Yields-chain (λ (s' : Server). Removed v i (ev, q) s'.vec) (Handled v i ev q)
          (close_client s i a.close) (λ s'. ok (true, s'))
          (close-Removed v i ev q iv h at open_fd s a.close e) (λ s' gone. gone))
        (Yields-if (Handled v i ev q) (not (bit_and entry.revents pollin == 0)) _ (ok (false, s))
          (echo-Handled n s entry a e) e))

  clear-Kept :
      (s : Server)
      → Extended v s.vec
      → Yields (λ (s' : Server). Kept v i ev q s'.vec) (clear_revents v.base i s)
  clear-Kept s x =
      let here : get_elem? (contents s.vec) i ≡ some (ev, q) =
        ap (λ t. get_elem? t i) x.more ∙ get_elem?-append_some (contents v) x.new i at in
      let (v', ran, valid, same) =
        clear_revents_lem s i ev q x.valid (omega (arith, x.grown, h)) here in
      let ran' = ap (λ b. clear_revents b i s) (sym x.base) ∙ ran in
      let (size, capacity, spare) =
        Yields-ok
          (λ (r : Server).
            ((r.vec).size ≡ (s.vec).size)
            × ((r.vec).capacity ≡ (s.vec).capacity)
            × ((k : ℕ) → Spare k s.vec → Spare k r.vec))
          _ (record s { vec = v' }) ran' (clear-size v.base i s (omega (arith, x.grown, h))) in
      subst (Yields (λ (s' : Server). Kept v i ev q s'.vec)) (sym ran') (record {
        new = x.new;
        quiet = x.quiet;
        valid = valid;
        more = same ∙ ap (λ t. set t i (cleared ev, q)) x.more;
        size = omega (arith, size, x.size);
        capacity = capacity ∙ x.capacity;
        grown = omega (arith, size, x.grown);
        spare = λ k q. spare k (x.spare k q);
      })

  unchanged-Extended : (v' : PollfdVector) → v' ≡ v → Extended v v'
  unchanged-Extended v' e = subst (Extended v) (sym e) (record {
    new = [];
    quiet = refl;
    valid = iv;
    more = sym (append-nil (contents v));
    size = omega arith;
    grown = omega arith;
    base = refl;
    capacity = refl;
    spare = λ k q. q;
  })

  expire-Removed :
      (s : Server) (close : ℤ)
      → s.vec ≡ v
      → Yields (λ (s' : Server). Removed v i (ev, q) s'.vec) (expire_timer s i close)
  unfolding expire_timer
  expire-Removed s close e = Yields-bind _ (assert_zero close) _ (λ _.
      Yields-chain (Removed v i (ev, q)) (λ (s' : Server). Removed v i (ev, q) s'.vec)
        (pollfdv_remove_index s.vec i) _ (rw e (remove-Removed v i ev q iv h at open_fd))
        (λ v' gone. gone))

accept-Extended :
    (s : Server) (a : Service)
    → IsValid s.vec
    → (s.vec).size < (s.vec).capacity
    → Yields (λ (s' : Server). Extended s.vec s'.vec) (poll_handle_new_client s a)
unfolding poll_handle_new_client poll_add_fd
accept-Extended s a iv room = Yields-bind _ (accept_client a.accept4 a.again) _ (λ fd.
    Yields-bind _ (assert_nnull a.con) _ (λ _.
      let entry : Pollfd = record { fd = fd; events = pollin; revents = 0 } in
      Yields-chain (Extended s.vec) (λ (s' : Server). Extended s.vec s'.vec) _ _
        (add-Extended s.vec entry a.con a.grow iv room refl) (λ v' more. more)))

-- The body of the loop for a ready entry either removes it, the last entry taking its place, or
-- keeps it with its `revents` cleared and appends at most one entry, which is not ready.
pub service_entry-Outcome :
    (n : ℕ) (ls : ℤ) (s : Server) (i : ℕ) (ev : Pollfd) (q : Ptr) (a : Service)
    → IsValid s.vec
    → i < (s.vec).size
    → (s.vec).size < (s.vec).capacity
    → get_elem? (contents s.vec) i ≡ some (ev, q)
    → ev.fd ≢ no_fd
    → Yields (Outcome s.vec i ev q) (service_entry n ls s i ev a)
unfolding service_entry
service_entry-Outcome n ls s i ev q a iv h room at open_fd =
    let base = (s.vec).base in
    let readable = not (bit_and ev.revents pollin == 0) in
    let kept = λ (s' : Server). clear_revents base i s' >>= λ s''. ok (false, s'') in
    let expired = expire_timer s i a.close >>= λ s'. ok (true, s') in
    let client =
      handle_client_event n s i a >>= λ (removed, s'). if removed then ok (true, s') else kept s' in
    Yields-if (Outcome s.vec i ev q) (eqb_ℤ ev.fd ls && readable) _
      (if eqb_ℤ ev.fd s.timer && readable then expired else client)
      (Yields-chain (λ (s' : Server). Extended s.vec s'.vec) (Outcome s.vec i ev q)
        (poll_handle_new_client s a) kept (accept-Extended s a iv room) extended)
      (Yields-if (Outcome s.vec i ev q) (eqb_ℤ ev.fd s.timer && readable) expired client
        (Yields-chain (λ (s' : Server). Removed s.vec i (ev, q) s'.vec) (Outcome s.vec i ev q)
          (expire_timer s i a.close) (λ s'. ok (true, s'))
          (expire-Removed s.vec i ev q iv h at open_fd s a.close refl) (λ s' gone. gone))
        (Yields-chain (Handled s.vec i ev q) (Outcome s.vec i ev q) (handle_client_event n s i a) _
          (handle-Handled s.vec i ev q iv h at open_fd n s a refl) after_handled))
  where
    extended :
        (s' : Server)
        → Extended s.vec s'.vec
        → Yields (Outcome s.vec i ev q) (clear_revents (s.vec).base i s' >>= λ s''. ok (false, s''))
    extended s' more =
        Yields-chain (λ (s'' : Server). Kept s.vec i ev q s''.vec) (Outcome s.vec i ev q)
          (clear_revents (s.vec).base i s') (λ s''. ok (false, s''))
          (clear-Kept s.vec i ev q iv h at open_fd s' more) (λ s'' kept. kept)

    after_handled :
        (r : Bool × Server)
        → Handled s.vec i ev q r
        → Yields (Outcome s.vec i ev q) (
            if r.0
            then ok (true, r.1)
            else (clear_revents (s.vec).base i r.1 >>= λ s''. ok (false, s'')))
    after_handled (true, s') gone = gone
    after_handled (false, s') same =
        extended s' (unchanged-Extended s.vec i ev q iv h at open_fd s'.vec same)

-- Either way one entry fewer is ready.
pub Outcome-ready :
    (s : Server) (i : ℕ) (ev : Pollfd) (q : Ptr) (r : Bool × Server)
    → get_elem? (contents s.vec) i ≡ some (ev, q)
    → ev.revents ≢ 0
    → Outcome s.vec i ev q r
    → ready (contents (r.1).vec) + 1 ≡ ready (contents s.vec)
unfolding weight
Outcome-ready s i ev q (true, s') at active gone =
    let one : weight (ev, q) ≡ 1 = ground arith in
    omega (arith, one, ap ready gone.fewer, ready-swap_remove (contents s.vec) i (ev, q) at)
Outcome-ready s i ev q (false, s') at active kept =
    let one : weight (ev, q) ≡ 1 = ground arith in
    let here : get_elem? (contents s.vec ++ kept.new) i ≡ some (ev, q) =
      get_elem?-append_some (contents s.vec) kept.new i at in
    omega (
      arith,
      one,
      kept.quiet,
      ap ready kept.more,
      ready-append (contents s.vec) kept.new,
      ready-set (contents s.vec ++ kept.new) i (ev, q) (cleared ev, q) here,
    )
