-- ===== src/Uring/Loop/Pending.antt =====
-- How often an operation is among those that are outstanding, and among those that are allocated.
use linux_modern_io_multiple.Prelude.{
  ℕ, false, ◌+◌, ◌<◌, ◌≡◌, ◌≢◌, refl, ap, arith, dec_lt, List, [], ◌∷◌, ◌++◌, ◌==◌, if◌then◌else◌,
}
use linux_modern_io_multiple.Links.{Ptr}
use linux_modern_io_multiple.Links.Chain.{Cells}
use linux_modern_io_multiple.Uring.Ring.{Sqe, Cqe}

unfoldable pub hit : Ptr → Ptr → ℕ
hit p q = if p == q then 1 else 0

-- How often an address is in a list.
abbrev pub count : Ptr → List Ptr → ℕ
count p [] = 0
count p (q ∷ qs) = hit p q + count p qs

-- How many SQEs, CQEs and tracked clients have an operation.
abbrev pub count_sqes : Ptr → List Sqe → ℕ
count_sqes p [] = 0
count_sqes p (x ∷ xs) = hit p x.user_data + count_sqes p xs

abbrev pub count_cqes : Ptr → List Cqe → ℕ
count_cqes p [] = 0
count_cqes p (x ∷ xs) = hit p x.user_data + count_cqes p xs

abbrev pub count_clients : Ptr → Cells Ptr → ℕ
count_clients p [] = 0
count_clients p ((_, q) ∷ cs) = hit p q + count_clients p cs

pub hit_self : (p : Ptr) → hit p p ≡ 1
unfolding hit
hit_self p = ground arith

pub hit_ne : (p q : Ptr) → 0 < hit p q → p ≡ q
unfolding hit
hit_ne p q h = ground arith

pub hit_other : (p q : Ptr) → p ≢ q → hit p q ≡ 0
unfolding hit
hit_other p q other = ground arith

pub hit_zero : (p q : Ptr) → hit p q ≡ 0 → (p == q) ≡ false
unfolding hit
hit_zero p q e = ground arith

pub count-append : (p : Ptr) (xs ys : List Ptr) → count p (xs ++ ys) ≡ count p xs + count p ys
count-append p [] ys = omega arith
count-append p (x ∷ xs) ys = omega (arith, count-append p xs ys)

pub count_sqes-append :
    (p : Ptr) (xs ys : List Sqe) → count_sqes p (xs ++ ys) ≡ count_sqes p xs + count_sqes p ys
count_sqes-append p [] ys = omega arith
count_sqes-append p (x ∷ xs) ys = omega (arith, count_sqes-append p xs ys)

pub count_cqes-append :
    (p : Ptr) (xs ys : List Cqe) → count_cqes p (xs ++ ys) ≡ count_cqes p xs + count_cqes p ys
count_cqes-append p [] ys = omega arith
count_cqes-append p (x ∷ xs) ys = omega (arith, count_cqes-append p xs ys)

pub count_clients-append :
    (p : Ptr) (xs ys : Cells Ptr)
    → count_clients p (xs ++ ys) ≡ count_clients p xs + count_clients p ys
count_clients-append p [] ys = omega arith
count_clients-append p (x ∷ xs) ys = omega (arith, count_clients-append p xs ys)

-- A client's place in the list.
pub record Place (p : Ptr) (cs : Cells Ptr) : Type 0 where
  pub before : Cells Ptr
  pub tracker : Ptr
  pub after : Cells Ptr
  pub split : cs ≡ before ++ ((tracker, p) ∷ after)

-- What is counted has a place.
pub count_clients-Place : (p : Ptr) (cs : Cells Ptr) → 0 < count_clients p cs → Place p cs
count_clients-Place p [] h = absurd (omega arith)
count_clients-Place p ((t, q) ∷ cs) h = elim (dec_lt 0 (hit p q)) [
  | yes here ↦
      let same = hit_ne p q here in
      record { before = []; tracker = t; after = cs; split = rw same refl }
  | no other ↦
      let place = count_clients-Place p cs (omega arith) in
      record {
        before = (t, q) ∷ place.before;
        tracker = place.tracker;
        after = place.after;
        split = ap (λ l. (t, q) ∷ l) place.split;
      }
]
