-- ===== src/Pollfd/Removal.antt =====
-- `pollfdv_remove_index` as removal in constant time from the sequence of entries.
use mathlib.Core.List.{Perm}
use linux_modern_io_multiple.Prelude.{
  ℕ, zero, suc, ◌-◌, ◌^◌, ◌<◌, ◌≤◌, ◌≡◌, ◌≢◌, refl, sym, ◌∙◌, ap, ◌⊎◌, inl, inr, Bool-cases, arith,
  ◌==◌, List, [], ◌∷◌, length, take, set, get_elem?, some, false, leb, length-set, length-take,
  lt→ltb,
}
use linux_modern_io_multiple.Prelude.Arrays.{
  zip, zip-set, length-zip, get_elem?-zip, get_elem?-zip_fst, take-set_ge, take-set, get_elem?-take,
  get_elem?_lt, swap_remove, swap_remove-set, swap_remove-perm,
}
use linux_modern_io_multiple.Prelude.Run.{ok, ◌>>=◌}
use linux_modern_io_multiple.Prelude.Int.{eqb_ℤ-ne}
use linux_modern_io_multiple.Pollfd.{
  PollfdVector, Pollfd, Ptr, pollfdv_remove_index, replace_by_last, drop_last, no_fd, empty_slot,
  last_index,
}
use linux_modern_io_multiple.Pollfd.Invariant.{IsValid}
use linux_modern_io_multiple.Pollfd.Contents.{Entry, contents}

-- The vector without the entry at `i`: `e` and `p` are the last entry and its private data.
abbrev removed : PollfdVector → ℕ → ℕ → Pollfd → Ptr → PollfdVector
removed v i m e p = record v {
  slots = set (set v.slots i e) m empty_slot;
  pd = set (set v.pd i p) m 0;
  size = m;
}

take-take : (m : ℕ) (z : List Entry) → take m (take (suc m) z) ≡ take m z
take-take zero z = refl
take-take (suc m) [] = refl
take-take (suc m) (x ∷ z) = ap (λ t. x ∷ t) (take-take m z)

set_self {ℓ} :
    {A : Type ℓ} (xs : List A) (i : ℕ) (a : A) → get_elem? xs i ≡ some a → set xs i a ≡ xs
set_self [] i a e = refl
set_self (x ∷ xs) zero a e = let q : x ≡ a = cc in rw q
set_self (x ∷ xs) (suc i) a e = ap (λ t. x ∷ t) (set_self xs i a e)

last_index-suc : (v : PollfdVector) (m : ℕ) → v.size ≡ suc m → suc m < 2 ^ 32 → last_index v ≡ m
last_index-suc v m e h = omega arith

replace_step :
    (v : PollfdVector) (i m : ℕ) (e : Pollfd) (p : Ptr)
    → IsValid v
    → v.size ≡ suc m
    → i < v.size
    → get_elem? v.slots m ≡ some e
    → get_elem? v.pd m ≡ some p
    → replace_by_last v i ≡ ok (record v { slots = set v.slots i e; pd = set v.pd i p })
unfolding replace_by_last
replace_step v i m e p iv k h g f =
    rw (last_index-suc v m k (omega (arith, iv)), g, f)
      (elim (Bool-cases (i == m)) [
        | inl hit ↦
            let at : i ≡ m = ground arith in
            rw (hit, at, set_self v.slots m e g, set_self v.pd m p f)
        | inr miss ↦ rw (
          miss,
          lt→ltb i (length v.slots) (omega (arith, iv)),
          lt→ltb i (length v.pd) (omega (arith, iv)),
        )
      ])

drop_step :
    (v : PollfdVector) (m : ℕ)
    → v.size ≡ suc m
    → suc m < 2 ^ 32
    → m < length v.slots
    → m < length v.pd
    → drop_last v ≡ ok (record v { slots = set v.slots m empty_slot; pd = set v.pd m 0; size = m })
unfolding drop_last
drop_step v m k small hs hp =
    rw (last_index-suc v m k small, lt→ltb m (length v.slots) hs, lt→ltb m (length v.pd) hp)

removed-IsValid :
    (v : PollfdVector) (i m : ℕ) (e : Pollfd) (p : Ptr)
    → IsValid v
    → v.size ≡ suc m
    → IsValid (removed v i m e p)
removed-IsValid v i m e p iv k = record {
  slots = length-set (set v.slots i e) m empty_slot ∙ length-set v.slots i e ∙ iv.slots;
  pd = length-set (set v.pd i p) m 0 ∙ length-set v.pd i p ∙ iv.pd;
  within = omega (arith, iv);
  some_room = iv.some_room;
  small = iv.small;
}

removed-contents :
    (v : PollfdVector) (i m : ℕ) (e : Pollfd) (p : Ptr)
    → IsValid v
    → v.size ≡ suc m
    → i < v.size
    → get_elem? v.slots m ≡ some e
    → get_elem? v.pd m ≡ some p
    → contents (removed v i m e p) ≡ swap_remove i (contents v)
unfolding contents
removed-contents v i m e p iv k h g f =
    rw
      (
        zip-set (set v.slots i e) (set v.pd i p) m empty_slot 0,
        zip-set v.slots v.pd i e p,
        take-set_ge m m (set (zip v.slots v.pd) i (e, p)) (empty_slot, 0) (omega arith),
        take-set m i (zip v.slots v.pd) (e, p),
        k,
      )
      (sym (
        swap_remove-set i m (take (suc m) z) (e, p) (omega (arith, long)) long
          (get_elem?-take (suc m) m z (omega arith) ∙ get_elem?-zip v.slots v.pd m g f)
        ∙ ap (λ t. set t i (e, p)) (take-take m z)))
  where
    z : List Entry
    z = zip v.slots v.pd

    long : length (take (suc m) z) ≡ suc m
    long = omega (arith, length-take (suc m) z, length-zip v.slots v.pd (iv.slots ∙ sym iv.pd), iv)

lt→leb_false : (i n : ℕ) → i < n → leb n i ≡ false
lt→leb_false i n h = ground arith

removal_proceeds :
    (v : PollfdVector) (i : ℕ) (x : Pollfd)
    → i < v.capacity
    → get_elem? v.slots i ≡ some x
    → x.fd ≢ no_fd
    → pollfdv_remove_index v i ≡ (replace_by_last v i >>= drop_last)
unfolding pollfdv_remove_index
removal_proceeds v i x h g ne = rw (lt→leb_false i v.capacity h, g, eqb_ℤ-ne x.fd no_fd ne)

in_array :
    (v : PollfdVector) (i : ℕ) {y : Entry}
    → get_elem? (contents v) i ≡ some y
    → i < v.size
    → get_elem? (zip v.slots v.pd) i ≡ some y
unfolding contents
in_array v i at h = sym (get_elem?-take v.size i (zip v.slots v.pd) h) ∙ at

-- Removal of an entry in use, whose descriptor is not -1: the last entry takes its place, all
-- others stay where they are, and the invariant is kept. Up to order, exactly that entry is gone.
pub pollfdv_remove_index-swap_remove :
    (v : PollfdVector) (i : ℕ) (x : Pollfd) (q : Ptr)
    → IsValid v
    → i < v.size
    → get_elem? (contents v) i ≡ some (x, q)
    → x.fd ≢ no_fd
    → (v' : PollfdVector) × (pollfdv_remove_index v i ≡ ok v')
      × IsValid v'
      × (contents v' ≡ swap_remove i (contents v))
      × Perm ((x, q) ∷ contents v') (contents v)
      × (suc v'.size ≡ v.size)
      × (v'.base ≡ v.base)
pollfdv_remove_index-swap_remove v i x q iv h at ne =
    let (e, g) = get_elem?_lt m v.slots (omega (arith, iv)) in
    let (p, f) = get_elem?_lt m v.pd (omega (arith, iv)) in
    let step = replace_step v i m e p iv k h g f in
    let moved = record v { slots = set v.slots i e; pd = set v.pd i p } in
    let done =
      drop_step moved m k (omega (arith, iv)) (omega (arith, iv, length-set v.slots i e))
        (omega (arith, iv, length-set v.pd i p)) in
    let same = removed-contents v i m e p iv k h g f in
    (
      removed v i m e p,
      removal_proceeds v i x (omega (arith, iv))
            (get_elem?-zip_fst v.slots v.pd i (in_array v i at h)) ne
          ∙ rw step done,
      removed-IsValid v i m e p iv k,
      same,
      rw same (swap_remove-perm i (contents v) (x, q) at),
      sym k,
      refl,
    )
  where
    m : ℕ
    m = v.size - 1

    k : v.size ≡ suc m
    k = omega arith

-- At an index outside the arrays, and at a slot whose descriptor is -1, `pollfdv_remove_index`
-- changes nothing.
pub pollfdv_remove_index-ignored :
    (v : PollfdVector) (i : ℕ)
    → (v.capacity ≤ i) ⊎ ((x : Pollfd) × (get_elem? v.slots i ≡ some x) × (x.fd ≡ no_fd))
    → pollfdv_remove_index v i ≡ ok v
unfolding pollfdv_remove_index
pollfdv_remove_index-ignored v i (inl out) = ground arith
pollfdv_remove_index-ignored v i (inr (x, g, e)) = elim (Bool-cases (leb v.capacity i)) [
  | inl out ↦ rw out
  | inr inside ↦ rw (inside, g, e)
]
