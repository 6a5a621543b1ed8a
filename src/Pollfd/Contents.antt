-- ===== src/Pollfd/Contents.antt =====
-- The vector as the sequence of its entries.
use linux_modern_io_multiple.Prelude.{
  ℕ, suc, ◌+◌, ◌*◌, ◌%◌, ◌^◌, ◌<◌, ◌≤◌, ◌≡◌, ◌≢◌, refl, sym, ◌∙◌, ◌⊎◌, inl, inr, Bool-cases, arith,
  ◌==◌, false, leb, length-append, length-set, List, [], ◌∷◌, ◌++◌, length, take, set, ap,
}
use native.Mathlib.Numerals.{add-one}
use linux_modern_io_multiple.Prelude.Arrays.{
  zip, zip-append, zip-set, length-zip, take_all, take-append_le, take-set_end,
}
use linux_modern_io_multiple.Prelude.Run.{ok, exited}
use linux_modern_io_multiple.Pollfd.{
  PollfdVector, Pollfd, Answer, Ptr, pollfdv_extend, add_entry, pollfdv_add,
}
use linux_modern_io_multiple.Pollfd.Invariant.{IsValid, Gives}

-- An entry and the private data that goes with it.
abbrev pub Entry : Type 0
Entry = Pollfd × Ptr

-- The entries in use, in order.
unfoldable pub contents : PollfdVector → List Entry
contents v = take v.size (zip v.slots v.pd)

-- The sequence of the entries in use in two arrays.
prefix-append :
    (n : ℕ) (xs us : List Pollfd) (ys vs : List Ptr)
    → length xs ≡ length ys
    → n ≤ length xs
    → take n (zip (xs ++ us) (ys ++ vs)) ≡ take n (zip xs ys)
prefix-append n xs us ys vs e h =
    rw (zip-append xs ys us vs e)
      (take-append_le n (zip xs ys) (zip us vs) (omega (arith, length-zip xs ys e)))

not_null : (p : Ptr) → p ≢ 0 → (p == 0) ≡ false
not_null p h = ground arith

-- `pollfdv_extend` keeps the entries, and there is room after it.
pub pollfdv_extend_lem :
    (v : PollfdVector) (a : Answer)
    → IsValid v
    → Gives v a
    → v.capacity < 2 ^ 31
    → a.data_ptr ≢ 0
    → a.pd_ptr ≢ 0
    → (v' : PollfdVector) × (pollfdv_extend v a ≡ ok v')
      × IsValid v'
      × (contents v' ≡ contents v)
      × (v'.size ≡ v.size)
      × (v'.base ≡ a.data_ptr)
      × (v'.size < v'.capacity)
unfolding pollfdv_extend contents
pollfdv_extend_lem v a iv g small p q = (
  record v {
    base = a.data_ptr;
    slots = v.slots ++ a.data_tail;
    capacity = v.capacity * 2;
    pd = v.pd ++ a.pd_tail;
  },
  rw (
    not_null a.data_ptr p,
    not_null a.pd_ptr q,
    doubled,
    take_all (v.capacity * 2) (v.slots ++ a.data_tail) (omega (arith, both_slots)),
    take_all (v.capacity * 2) (v.pd ++ a.pd_tail) (omega (arith, both_pd)),
  ),
  record {
    slots = both_slots;
    pd = both_pd;
    within = omega (arith, iv);
    some_room = omega (arith, iv);
    small = omega arith;
  },
  prefix-append v.size v.slots a.data_tail v.pd a.pd_tail (iv.slots ∙ sym iv.pd)
      (omega (arith, iv)),
  refl,
  refl,
  omega (arith, iv),
)
  where
    doubled : v.capacity * 2 % 2 ^ 32 ≡ v.capacity * 2
    doubled = omega arith

    both_slots : length (v.slots ++ a.data_tail) ≡ v.capacity * 2
    both_slots = omega (arith, length-append v.slots a.data_tail, iv.slots, g.slots)

    both_pd : length (v.pd ++ a.pd_tail) ≡ v.capacity * 2
    both_pd = omega (arith, length-append v.pd a.pd_tail, iv.pd, g.pd)

-- `pollfdv_add` with room appends the entry.
pub add_entry_lem :
    (v : PollfdVector) (conf : Pollfd) (p : Ptr)
    → IsValid v
    → v.size < v.capacity
    → (v' : PollfdVector) × (add_entry v conf p ≡ ok v')
      × IsValid v'
      × (contents v' ≡ contents v ++ ((conf, p) ∷ []))
      × (v'.base ≡ v.base)
      × (v'.size ≡ suc v.size)
unfolding add_entry contents
add_entry_lem v conf p iv room = (
  record v { slots = set v.slots v.size conf; pd = set v.pd v.size p; size = v.size + 1 },
  ground (arith, iv),
  record {
    slots = length-set v.slots v.size conf ∙ iv.slots;
    pd = length-set v.pd v.size p ∙ iv.pd;
    within = omega arith;
    some_room = iv.some_room;
    small = iv.small;
  },
  rw (add-one v.size, zip-set v.slots v.pd v.size conf p)
      (take-set_end v.size (zip v.slots v.pd) (conf, p)
        (omega (arith, iv, length-zip v.slots v.pd (iv.slots ∙ sym iv.pd)))),
  refl,
  omega (arith, iv),
)

-- `pollfdv_add` appends the entry with its private data, growing the arrays first where they are
-- full; it keeps the invariant. The allocations succeed, and the capacity does not pass 2^31.
pub pollfdv_add-append :
    (v : PollfdVector) (conf : Pollfd) (p : Ptr) (a : Answer)
    → IsValid v
    → Gives v a
    → v.capacity < 2 ^ 31
    → a.data_ptr ≢ 0
    → a.pd_ptr ≢ 0
    → (v' : PollfdVector) × (pollfdv_add v conf p a ≡ ok v')
      × IsValid v'
      × (contents v' ≡ contents v ++ ((conf, p) ∷ []))
unfolding pollfdv_add
pollfdv_add-append v conf p a iv g small hd hp = elim (Bool-cases (leb v.capacity v.size)) [
  | inl full ↦
      let (grown, e, iv', same, _, _, room) = pollfdv_extend_lem v a iv g small hd hp in
      let (last, added, iv'', more, _, _) = add_entry_lem grown conf p iv' room in
      (last, rw (full, e) added, iv'', more ∙ ap (λ t. t ++ ((conf, p) ∷ [])) same)
  | inr room ↦
      let (last, added, iv'', more, _, _) = add_entry_lem v conf p iv (ground arith) in
      (last, rw room added, iv'', more)
]

-- `pollfdv_add` leaves the process when an allocation that it needs fails.
pub pollfdv_add-exited :
    (v : PollfdVector) (conf : Pollfd) (p : Ptr) (a : Answer)
    → v.capacity ≤ v.size
    → (a.data_ptr ≡ 0) ⊎ (a.pd_ptr ≡ 0)
    → pollfdv_add v conf p a ≡ exited
unfolding pollfdv_add
pollfdv_add-exited v conf p a full h = ground arith
