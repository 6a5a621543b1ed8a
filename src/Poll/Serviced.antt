-- ===== src/Poll/Serviced.antt =====
-- What the body of the loop of `service_events` does to the vector, on each of its branches.
use linux_modern_io_multiple.Prelude.{
  ℕ, suc, ◌<◌, ◌≤◌, ◌≡◌, ◌≢◌, ◌∙◌, refl, sym, subst, arith, Bool, true, false, List, [], ◌∷◌, ◌++◌,
  some, get_elem?, set, ◌==◌,
}
use linux_modern_io_multiple.Prelude.Arrays.{swap_remove}
use linux_modern_io_multiple.Prelude.Int.{ℤ}
use linux_modern_io_multiple.Prelude.Run.{
  assert_zero, from_cell, Yields, Yields-bind, Yields-chain, Yields-if, Yields-ok,
}
use linux_modern_io_multiple.Pollfd.{
  Ptr, Pollfd, PollfdVector, Answer, pollfdv_add, pollfdv_remove_index, no_fd,
}
use linux_modern_io_multiple.Pollfd.Invariant.{IsValid}
use linux_modern_io_multiple.Pollfd.Contents.{Entry, contents, add_entry_lem}
use linux_modern_io_multiple.Pollfd.Removal.{pollfdv_remove_index-swap_remove}
use linux_modern_io_multiple.Poll.{Server, free_con, close_client}
use linux_modern_io_multiple.Poll.Entries.{cleared, pollfdv_add-room}
use linux_modern_io_multiple.Poll.Ready.{ready, weight}
use linux_modern_io_multiple.Poll.Spare.{Spare, add-capacity, remove-capacity}

-- The entry at `i` is gone, and the last one takes its place.
pub record Removed (v : PollfdVector) (i : ℕ) (x : Entry) (v' : PollfdVector) : Type 0 where
  pub valid : IsValid v'
  pub fewer : contents v' ≡ swap_remove i (contents v)
  pub size : suc v'.size ≡ v.size
  pub spare : (k : ℕ) → Spare k v → Spare k v'
  pub capacity : v'.capacity ≡ v.capacity

-- The entries stay, and some that are not ready come behind them.
pub record Extended (v : PollfdVector) (v' : PollfdVector) : Type 0 where
  pub new : List Entry
  pub quiet : ready new ≡ 0
  pub valid : IsValid v'
  pub more : contents v' ≡ contents v ++ new
  pub size : v'.size ≤ suc v.size
  pub grown : v.size ≤ v'.size
  pub base : v'.base ≡ v.base
  pub capacity : v'.capacity ≡ v.capacity
  pub spare : (k : ℕ) → Spare k v → Spare k v'

-- The `revents` of the entry at `i` is cleared then.
pub record Kept (v : PollfdVector) (i : ℕ) (x : Pollfd) (q : Ptr) (v' : PollfdVector) : Type 0 where
  pub new : List Entry
  pub quiet : ready new ≡ 0
  pub valid : IsValid v'
  pub more : contents v' ≡ set (contents v ++ new) i (cleared x, q)
  pub size : v'.size ≤ suc v.size
  pub grown : v.size ≤ v'.size
  pub spare : (k : ℕ) → Spare k v → Spare k v'
  pub capacity : v'.capacity ≡ v.capacity

-- What comes of an entry, as the Boolean says.
abbrev pub Outcome : PollfdVector → ℕ → Pollfd → Ptr → Bool × Server → Type 0
Outcome v i x q (true, s') = Removed v i (x, q) s'.vec
Outcome v i x q (false, s') = Kept v i x q s'.vec

-- What a client's event comes to, before its `revents` is cleared.
abbrev pub Handled : PollfdVector → ℕ → Pollfd → Ptr → Bool × Server → Type 0
Handled v i x q (true, s') = Removed v i (x, q) s'.vec
Handled v i x q (false, s') = s'.vec ≡ v

-- An entry that is not ready comes last.
pub add-Extended :
    (v : PollfdVector) (conf : Pollfd) (p : Ptr) (a : Answer)
    → IsValid v
    → v.size < v.capacity
    → conf.revents ≡ 0
    → Yields (Extended v) (pollfdv_add v conf p a)
unfolding weight
add-Extended v conf p a iv room quiet =
    let (v', ran, valid, more, base, size) = add_entry_lem v conf p iv room in
    let ran' = pollfdv_add-room v conf p a room ∙ ran in
    let same =
      Yields-ok
        (λ (r : PollfdVector). (r.capacity ≡ v.capacity) × ((k : ℕ) → Spare k v → Spare k r)) _ v'
        ran (add-capacity v conf p iv room) in
    subst (Yields (Extended v)) (sym ran') (record {
      new = (conf, p) ∷ [];
      quiet = simp quiet;
      valid = valid;
      more = more;
      size = omega (arith, size);
      grown = omega (arith, size);
      base = base;
      capacity = same.0;
      spare = same.1;
    })

free_con-vec : (s : Server) (p : Ptr) → Yields (λ (s' : Server). s'.vec ≡ s.vec) (free_con s p)
unfolding free_con
free_con-vec s p =
    Yields-if _ (p == 0) _ _ refl (Yields-bind _ (from_cell (s.cons p)) _ (λ _. refl))

module _ (v : PollfdVector) (i : ℕ) (ev : Pollfd) (q : Ptr) (iv : IsValid v) (h : i < v.size)
    (at : get_elem? (contents v) i ≡ some (ev, q)) (open_fd : ev.fd ≢ no_fd) where
  pub remove-Removed : Yields (Removed v i (ev, q)) (pollfdv_remove_index v i)
  remove-Removed =
      let (v', ran, valid, fewer, _, size, _) =
        pollfdv_remove_index-swap_remove v i ev q iv h at open_fd in
      let same =
        Yields-ok
          (λ (r : PollfdVector). (r.capacity ≡ v.capacity) × ((k : ℕ) → Spare k v → Spare k r)) _ v'
          ran (remove-capacity v i iv h) in
      rw ran
        (record { valid = valid; fewer = fewer; size = size; capacity = same.0; spare = same.1 })

  pub close-Removed :
      (s : Server) (close : ℤ)
      → s.vec ≡ v
      → Yields (λ (s' : Server). Removed v i (ev, q) s'.vec) (close_client s i close)
  unfolding close_client
  close-Removed s close e = Yields-bind _ (from_cell (get_elem? (s.vec).slots i)) _ (λ entry.
      Yields-bind _ (assert_zero close) _ (λ _.
        Yields-bind _ (from_cell (get_elem? (s.vec).pd i)) _ (λ p.
          let s1 = record s { closed = s.closed ++ (entry.fd ∷ []) } in
          Yields-chain (λ (s' : Server). s'.vec ≡ s.vec)
            (λ (s' : Server). Removed v i (ev, q) s'.vec) (free_con s1 p) _ (free_con-vec s1 p)
            (λ s' same.
              Yields-chain (Removed v i (ev, q)) (λ (s' : Server). Removed v i (ev, q) s'.vec)
                (pollfdv_remove_index s'.vec i) _ (rw (same ∙ e) remove-Removed)
                (λ v' gone. gone)))))
