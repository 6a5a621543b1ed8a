-- ===== src/Poll/Entries.antt =====
-- Single entries of the vector, as the poll server reads and clears them.
use linux_modern_io_multiple.Prelude.{
  ℕ, zero, suc, ◌<◌, ◌≡◌, refl, sym, ap, ◌∙◌, arith, false, not, ◌==◌, List, [], ◌∷◌, ◌++◌, some,
  get_elem?, set, length, length-set, take, leb, lt→ltb,
}
use linux_modern_io_multiple.Prelude.Arrays.{
  zip, zip-set, take-set, get_elem?-take, get_elem?-zip_fst,
}
use linux_modern_io_multiple.Prelude.Run.{ok}
use linux_modern_io_multiple.Pollfd.{Ptr, Pollfd, PollfdVector, Answer, add_entry, pollfdv_add}
use linux_modern_io_multiple.Pollfd.Invariant.{IsValid}
use linux_modern_io_multiple.Pollfd.Contents.{contents}
use linux_modern_io_multiple.Poll.{Server, clear_revents}

set_same {ℓ} :
    {A : Type ℓ} (xs : List A) (i : ℕ) (a : A) → get_elem? xs i ≡ some a → set xs i a ≡ xs
set_same [] i a e = refl
set_same (x ∷ xs) zero a e = let same : x ≡ a = cc in rw same
set_same (x ∷ xs) (suc i) a e = ap (λ t. x ∷ t) (set_same xs i a e)

get_elem?-zip_snd {ℓ κ} :
    {A : Type ℓ} {B : Type κ} (xs : List A) (ys : List B) (i : ℕ) {a : A} {b : B}
    → get_elem? (zip xs ys) i ≡ some (a, b)
    → get_elem? ys i ≡ some b
get_elem?-zip_snd [] ys i e = cc
get_elem?-zip_snd (x ∷ xs) [] i e = cc
get_elem?-zip_snd (x ∷ xs) (y ∷ ys) zero {a} {b} e = cc
get_elem?-zip_snd (x ∷ xs) (y ∷ ys) (suc i) e = get_elem?-zip_snd xs ys i e

pub get_elem?-append_some {ℓ} :
    {A : Type ℓ} (xs ys : List A) (i : ℕ) {a : A}
    → get_elem? xs i ≡ some a
    → get_elem? (xs ++ ys) i ≡ some a
get_elem?-append_some [] ys i e = cc
get_elem?-append_some (x ∷ xs) ys zero e = e
get_elem?-append_some (x ∷ xs) ys (suc i) e = get_elem?-append_some xs ys i e

-- An entry in use, in both arrays.
pub record IsAt (v : PollfdVector) (i : ℕ) (x : Pollfd) (q : Ptr) : Type 0 where
  pub slot : get_elem? v.slots i ≡ some x
  pub pd : get_elem? v.pd i ≡ some q
  pub zipped : get_elem? (zip v.slots v.pd) i ≡ some (x, q)

pub entry-IsAt :
    (v : PollfdVector) (i : ℕ) (x : Pollfd) (q : Ptr)
    → i < v.size
    → get_elem? (contents v) i ≡ some (x, q)
    → IsAt v i x q
unfolding contents
entry-IsAt v i x q h e =
    let z = sym (get_elem?-take v.size i (zip v.slots v.pd) h) ∙ e in
    record {
      slot = get_elem?-zip_fst v.slots v.pd i z;
      pd = get_elem?-zip_snd v.slots v.pd i z;
      zipped = z;
    }

-- With room, nothing is allocated.
pub pollfdv_add-room :
    (v : PollfdVector) (conf : Pollfd) (p : Ptr) (a : Answer)
    → v.size < v.capacity
    → pollfdv_add v conf p a ≡ add_entry v conf p
unfolding pollfdv_add
pollfdv_add-room v conf p a room = simp not_full
  where
    not_full : leb v.capacity v.size ≡ false
    not_full = ground arith

abbrev pub cleared : Pollfd → Pollfd
cleared x = record x { revents = 0 }

-- The entry whose `revents` is cleared is the only one to change.
pub clear_revents_lem :
    (s : Server) (i : ℕ) (x : Pollfd) (q : Ptr)
    → IsValid s.vec
    → i < (s.vec).size
    → get_elem? (contents s.vec) i ≡ some (x, q)
    → (v : PollfdVector) × (clear_revents (s.vec).base i s ≡ ok (record s { vec = v }))
      × IsValid v
      × (contents v ≡ set (contents s.vec) i (cleared x, q))
unfolding clear_revents contents
clear_revents_lem s i x q iv h e =
    let at = entry-IsAt s.vec i x q h e in
    (
      record s.vec { slots = set (s.vec).slots i (cleared x) },
      simp (itself, at.slot, lt→ltb i (length (s.vec).slots) (omega (arith, iv))),
      record {
        slots = length-set (s.vec).slots i (cleared x) ∙ iv.slots;
        pd = iv.pd;
        within = iv.within;
        some_room = iv.some_room;
        small = iv.small;
      },
      ap (λ t. take (s.vec).size t)
            (ap (λ t. zip (set (s.vec).slots i (cleared x)) t) (sym (set_same (s.vec).pd i q at.pd))
              ∙ zip-set (s.vec).slots (s.vec).pd i (cleared x) q)
          ∙ take-set (s.vec).size i (zip (s.vec).slots (s.vec).pd) (cleared x, q),
    )
  where
    itself : not ((s.vec).base == (s.vec).base) ≡ false
    itself = ground arith
