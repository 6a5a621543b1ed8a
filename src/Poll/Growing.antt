-- ===== src/Poll/Growing.antt =====
-- What the loop's pointer into the vector does when the vector grows.
use linux_modern_io_multiple.Prelude.{
  ℕ, ◌^◌, ◌<◌, ◌≤◌, ◌≡◌, ◌≢◌, ◌∙◌, arith, true, false, not, leb, bit_and, ◌==◌,
}
use linux_modern_io_multiple.Prelude.Int.{ℤ, pos, eqb_ℤ-refl}
use linux_modern_io_multiple.Prelude.Run.{ok, fault}
use linux_modern_io_multiple.Net.{accept_client}
use linux_modern_io_multiple.Pollfd.{Ptr, Pollfd, PollfdVector, Answer, pollfdv_add}
use linux_modern_io_multiple.Pollfd.Invariant.{IsValid, Gives}
use linux_modern_io_multiple.Pollfd.Contents.{pollfdv_extend_lem, add_entry_lem}
use linux_modern_io_multiple.Poll.{
  Server, Service, pollin, poll_add_fd, poll_handle_new_client, clear_revents, service_entry,
}

-- An addition to a full vector moves it to where `realloc` says.
pollfdv_add-moved :
    (v : PollfdVector) (conf : Pollfd) (p : Ptr) (a : Answer)
    → IsValid v
    → Gives v a
    → v.capacity < 2 ^ 31
    → v.capacity ≤ v.size
    → a.data_ptr ≢ 0
    → a.pd_ptr ≢ 0
    → (v' : PollfdVector) × (pollfdv_add v conf p a ≡ ok v') × (v'.base ≡ a.data_ptr)
unfolding pollfdv_add
pollfdv_add-moved v conf p a iv g small full hd hp =
    let (grown, e, iv', _, _, moved, room) = pollfdv_extend_lem v a iv g small hd hp in
    let (last, added, _, _, same, _) = add_entry_lem grown conf p iv' room in
    let test : leb v.capacity v.size ≡ true = ground arith in
    (last, rw (test, e) added, same ∙ moved)

-- A client that connects while the vector is full makes the server write to freed memory, if
-- `realloc` moves the array: the loop's `ev` still points into the old one. The allocations
-- succeed.
pub service_entry-moved :
    (n : ℕ) (ls : ℤ) (s : Server) (i : ℕ) (ev : Pollfd) (a : Service) (fd : ℕ)
    → IsValid s.vec
    → Gives s.vec a.grow
    → (s.vec).capacity < 2 ^ 31
    → (s.vec).capacity ≤ (s.vec).size
    → (a.grow).data_ptr ≢ 0
    → (a.grow).pd_ptr ≢ 0
    → (a.grow).data_ptr ≢ (s.vec).base
    → a.con ≢ 0
    → a.accept4 ≡ pos fd
    → ev.fd ≡ ls
    → bit_and ev.revents pollin ≢ 0
    → service_entry n ls s i ev a ≡ fault
unfolding service_entry poll_handle_new_client poll_add_fd accept_client clear_revents
service_entry-moved n ls s i ev a fd iv g small full hd hp moves con accepted listening readable =
    let (v', added, at) =
      pollfdv_add-moved s.vec (record { fd = pos fd; events = pollin; revents = 0 }) a.con a.grow iv
        g small full hd hp in
    simp (listening, eqb_ℤ-refl ls, ready, accepted, no_null, added, at, elsewhere)
  where
    ready : not (bit_and ev.revents pollin == 0) ≡ true
    ready = ground arith

    no_null : (a.con == 0) ≡ false
    no_null = ground arith

    elsewhere : ((a.grow).data_ptr == (s.vec).base) ≡ false
    elsewhere = ground arith
