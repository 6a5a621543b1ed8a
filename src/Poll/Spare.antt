-- ===== src/Poll/Spare.antt =====
-- The slots of the poll server's vector that are not in use, and its capacity, over the operations.
use linux_modern_io_multiple.Prelude.{
  ℕ, ap, ltb, length, ◌^◌, ℕ_discrete, ◌<◌, ◌≤◌, ◌≡◌, ◌∙◌, refl, sym, arith, not, List, some,
  get_elem?, set, leb, ◌==◌,
}
use linux_modern_io_multiple.Prelude.Int.{eqb_ℤ}
use linux_modern_io_multiple.Prelude.Run.{from_cell, Yields, Yields-bind, Yields-chain, Yields-if}
use linux_modern_io_multiple.Pollfd.{
  Ptr, Pollfd, PollfdVector, add_entry, pollfdv_remove_index, no_fd, replace_by_last, drop_last,
  last_index, store, empty_slot,
}
use linux_modern_io_multiple.Pollfd.Invariant.{IsValid}
use linux_modern_io_multiple.Poll.{Server, clear_revents}
use linux_modern_io_multiple.Poll.Ready.{set-get, set-get_here}

-- The slots below `k` that are not in use are not ready.
abbrev pub Spare : ℕ → PollfdVector → Type 0
Spare k v = (j : ℕ) (e : Pollfd) → v.size ≤ j → j < k → get_elem? v.slots j ≡ some e → e.revents ≡ 0

store-set {ℓ} :
    {A : Type ℓ} (xs : List A) (i : ℕ) (a : A)
    → Yields (λ (ys : List A). ys ≡ set xs i a) (store xs i a)
store-set xs i a = Yields-if _ (ltb i (length xs)) _ _ refl tt

pub clear-size :
    (base i : ℕ) (s : Server)
    → i < (s.vec).size
    → Yields
        (λ (r : Server).
          ((r.vec).size ≡ (s.vec).size)
          × ((r.vec).capacity ≡ (s.vec).capacity)
          × ((k : ℕ) → Spare k s.vec → Spare k r.vec))
        (clear_revents base i s)
unfolding clear_revents
clear-size base i s h = Yields-if _ (not ((s.vec).base == base)) _ _ tt (
    Yields-bind _ (from_cell (get_elem? (s.vec).slots i)) _ (λ entry.
      Yields-chain
        (λ (slots : List Pollfd). slots ≡ set (s.vec).slots i (record entry { revents = 0 })) _
        (store (s.vec).slots i (record entry { revents = 0 })) _
        (store-set (s.vec).slots i (record entry { revents = 0 }))
        (λ slots same. (
          refl,
          refl,
          λ k spare j e at below here. spare j e at below (
              set-get (s.vec).slots i j (record entry { revents = 0 }) e
                (λ hit. omega (arith, hit, h, at)) (ap (λ t. get_elem? t j) (sym same) ∙ here)),
        ))))

pub add-capacity :
    (v : PollfdVector) (conf : Pollfd) (p : Ptr)
    → IsValid v
    → v.size < v.capacity
    → Yields
        (λ (r : PollfdVector). (r.capacity ≡ v.capacity) × ((k : ℕ) → Spare k v → Spare k r))
        (add_entry v conf p)
unfolding add_entry
add-capacity v conf p iv room = Yields-if _ (leb v.capacity v.size) _ _ tt (
    Yields-chain (λ (slots : List Pollfd). slots ≡ set v.slots v.size conf) _
      (store v.slots v.size conf) _ (store-set v.slots v.size conf)
      (λ slots same. Yields-bind _ (store v.pd v.size p) _ (λ pd. (
        refl,
        λ k spare j e at below here.
            let next : v.size < j = omega (arith, iv, room, at) in
            spare j e (omega (arith, next)) below (
              set-get v.slots v.size j conf e (λ hit. omega (arith, hit, next))
                (ap (λ t. get_elem? t j) (sym same) ∙ here)),
      ))))

-- The slots of a vector from which the last one was taken.
drop_last-Spare :
    (v r : PollfdVector)
    → 0 < v.size
    → v.size < 2 ^ 32
    → r.size ≡ v.size
    → r.capacity ≡ v.capacity
    → ((j : ℕ) (e : Pollfd)
        → v.size ≤ j
        → get_elem? r.slots j ≡ some e
        → get_elem? v.slots j ≡ some e)
    → Yields
        (λ (v' : PollfdVector). (v'.capacity ≡ v.capacity) × ((k : ℕ) → Spare k v → Spare k v'))
        (drop_last r)
unfolding drop_last
drop_last-Spare v r some_entry small size capacity others =
    Yields-chain (λ (slots : List Pollfd). slots ≡ set r.slots (last_index r) empty_slot) _
      (store r.slots (last_index r) empty_slot) _ (store-set r.slots (last_index r) empty_slot)
      (λ slots same. Yields-bind _ (store r.pd (last_index r) 0) _ (λ pd. (
        capacity,
        λ k spare j e at below here.
            let now : get_elem? (set r.slots (last_index r) empty_slot) j ≡ some e =
              ap (λ t. get_elem? t j) (sym same) ∙ here in
            elim (ℕ_discrete j (last_index r)) [
              | yes hit ↦ sym (
                  ap (λ (x : Pollfd). x.revents)
                    (set-get_here r.slots (last_index r) empty_slot e (
                      ap (λ t. get_elem? (set r.slots (last_index r) empty_slot) t) (sym hit)
                      ∙ now)))
              | no miss ↦
                  let far : v.size ≤ j = omega (arith, miss, at, size, some_entry, small) in
                  spare j e far below
                    (others j e far (set-get r.slots (last_index r) j empty_slot e miss now))
            ],
      )))

pub remove-capacity :
    (v : PollfdVector) (i : ℕ)
    → IsValid v
    → i < v.size
    → Yields
        (λ (v' : PollfdVector). (v'.capacity ≡ v.capacity) × ((k : ℕ) → Spare k v → Spare k v'))
        (pollfdv_remove_index v i)
unfolding pollfdv_remove_index replace_by_last
remove-capacity v i iv h =
    Yields-if _ (leb v.capacity i) _ _ (refl, λ k spare. spare)
      (Yields-bind _ (from_cell (get_elem? v.slots i)) _ (λ entry.
        Yields-if _ (eqb_ℤ entry.fd no_fd) _ _ (refl, λ k spare. spare)
          (Yields-chain
            (λ (r : PollfdVector).
              (r.size ≡ v.size)
              × (r.capacity ≡ v.capacity)
              × ((j : ℕ) (e : Pollfd)
                  → v.size ≤ j
                  → get_elem? r.slots j ≡ some e
                  → get_elem? v.slots j ≡ some e))
            _ (replace_by_last v i) _
            (Yields-if _ (i == last_index v) _ _ (refl, refl, λ j e at here. here)
              (Yields-bind _ (from_cell (get_elem? v.slots (last_index v))) _ (λ e.
                Yields-bind _ (from_cell (get_elem? v.pd (last_index v))) _ (λ p.
                  Yields-chain (λ (slots : List Pollfd). slots ≡ set v.slots i e) _
                    (store v.slots i e) _ (store-set v.slots i e)
                    (λ slots same. Yields-bind _ (store v.pd i p) _ (λ pd. (
                      refl,
                      refl,
                      λ j x at here.
                          set-get v.slots i j e x (λ hit. omega (arith, hit, h, at))
                            (ap (λ t. get_elem? t j) (sym same) ∙ here),
                    )))))))
            (λ r (size, capacity, others).
              drop_last-Spare v r (omega (arith, h)) (omega (arith, iv)) size capacity others))))
