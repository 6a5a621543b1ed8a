-- ===== src/Poll/Ready.antt =====
-- How many entries of the poll server's vector are ready, and which.
use linux_modern_io_multiple.Prelude.{
  ℕ, zero, suc, ◌+◌, ◌≡◌, ◌≢◌, ◌<◌, ◌∙◌, ◌⊎◌, inl, inr, refl, ap, arith, List, [], ◌∷◌, ◌++◌, some,
  get_elem?, set, ◌==◌, if◌then◌else◌,
}
use linux_modern_io_multiple.Prelude.Arrays.{swap_remove, without_last, last_or}
use linux_modern_io_multiple.Pollfd.Contents.{Entry}

-- 1 for an entry that `service_events` does not pass over.
unfoldable pub weight : Entry → ℕ
weight (x, q) = if x.revents == 0 then 0 else 1

-- How many entries are ready.
abbrev pub ready : List Entry → ℕ
ready [] = 0
ready (x ∷ xs) = weight x + ready xs

pub ready-append : (xs ys : List Entry) → ready (xs ++ ys) ≡ ready xs + ready ys
ready-append [] ys = omega arith
ready-append (x ∷ xs) ys = omega (arith, ready-append xs ys)

pub ready-set :
    (xs : List Entry) (i : ℕ) (x y : Entry)
    → get_elem? xs i ≡ some x
    → ready (set xs i y) + weight x ≡ ready xs + weight y
ready-set [] i x y e = cc
ready-set (z ∷ xs) zero x y e = let same : z ≡ x = cc in omega (arith, ap weight same)
ready-set (z ∷ xs) (suc i) x y e = omega (arith, ready-set xs i x y e)

ready-last :
    (x : Entry) (r : List Entry)
    → weight (last_or x r) + ready (without_last (x ∷ r)) ≡ ready (x ∷ r)
ready-last x [] = refl
ready-last x (y ∷ r) = omega (arith, ready-last y r)

pub ready-swap_remove :
    (xs : List Entry) (i : ℕ) (x : Entry)
    → get_elem? xs i ≡ some x
    → ready (swap_remove i xs) + weight x ≡ ready xs
unfolding swap_remove
ready-swap_remove [] i x e = cc
ready-swap_remove (y ∷ []) zero x e = let same : y ≡ x = cc in omega (arith, ap weight same)
ready-swap_remove (y ∷ (z ∷ r)) zero x e =
    let same : y ≡ x = cc in omega (arith, ap weight same, ready-last z r)
ready-swap_remove (y ∷ r) (suc i) x e = omega (arith, ready-swap_remove r i x e)

-- An element that is kept where it was.
without_last-get :
    (x : Entry) (r : List Entry) (j : ℕ) (y : Entry)
    → get_elem? (without_last (x ∷ r)) j ≡ some y
    → get_elem? (x ∷ r) j ≡ some y
without_last-get x [] j y e = cc
without_last-get x (z ∷ r) zero y e = e
without_last-get x (z ∷ r) (suc j) y e = without_last-get z r j y e

pub swap_remove-get :
    (xs : List Entry) (i j : ℕ) (y : Entry)
    → j ≢ i
    → get_elem? (swap_remove i xs) j ≡ some y
    → get_elem? xs j ≡ some y
unfolding swap_remove
swap_remove-get [] i j y ne e = cc
swap_remove-get (x ∷ []) zero j y ne e = cc
swap_remove-get (x ∷ (z ∷ r)) zero zero y ne e = absurd (ne refl)
swap_remove-get (x ∷ (z ∷ r)) zero (suc j) y ne e = without_last-get z r j y e
swap_remove-get (x ∷ r) (suc i) zero y ne e = e
swap_remove-get (x ∷ r) (suc i) (suc j) y ne e = swap_remove-get r i j y (λ k. ne (ap suc k)) e

pub set-get {ℓ} :
    {A : Type ℓ} (xs : List A) (i j : ℕ) (x y : A)
    → j ≢ i
    → get_elem? (set xs i x) j ≡ some y
    → get_elem? xs j ≡ some y
set-get [] i j x y ne e = e
set-get (z ∷ xs) zero zero x y ne e = absurd (ne refl)
set-get (z ∷ xs) zero (suc j) x y ne e = e
set-get (z ∷ xs) (suc i) zero x y ne e = e
set-get (z ∷ xs) (suc i) (suc j) x y ne e = set-get xs i j x y (λ k. ne (ap suc k)) e

pub set-get_here {ℓ} :
    {A : Type ℓ} (xs : List A) (i : ℕ) (x y : A) → get_elem? (set xs i x) i ≡ some y → x ≡ y
set-get_here [] i x y e = cc
set-get_here (z ∷ xs) zero x y e = cc
set-get_here (z ∷ xs) (suc i) x y e = set-get_here xs i x y e

-- Where no place holds a ready entry, none is ready.
pub none_ready :
    (xs : List Entry)
    → ((j : ℕ) (y : Entry) → get_elem? xs j ≡ some y → weight y ≡ 0)
    → ready xs ≡ 0
none_ready [] quiet = refl
none_ready (x ∷ xs) quiet =
    omega (arith, quiet 0 x refl, none_ready xs (λ j y e. quiet (suc j) y e))

last-from : (x : Entry) (r : List Entry) → (k : ℕ) × (get_elem? (x ∷ r) k ≡ some (last_or x r))
last-from x [] = (0, refl)
last-from x (y ∷ r) = let (k, e) = last-from y r in (suc k, e)

-- Removal adds no entry.
pub swap_remove-from :
    (xs : List Entry) (i j : ℕ) (y : Entry)
    → get_elem? (swap_remove i xs) j ≡ some y
    → (k : ℕ) × (get_elem? xs k ≡ some y)
unfolding swap_remove
swap_remove-from [] i j y e = cc
swap_remove-from (x ∷ []) zero j y e = cc
swap_remove-from (x ∷ (z ∷ r)) zero zero y e = let (k, f) = last-from z r in (suc k, f ∙ e)
swap_remove-from (x ∷ (z ∷ r)) zero (suc j) y e = (suc j, without_last-get z r j y e)
swap_remove-from (x ∷ r) (suc i) zero y e = (0, e)
swap_remove-from (x ∷ r) (suc i) (suc j) y e = let (k, f) = swap_remove-from r i j y e in (suc k, f)

get-quiet :
    (xs : List Entry) (j : ℕ) (y : Entry) → ready xs ≡ 0 → get_elem? xs j ≡ some y → weight y ≡ 0
get-quiet [] j y q e = cc
get-quiet (x ∷ xs) zero y q e = let same : x ≡ y = cc in omega (arith, q, ap weight same)
get-quiet (x ∷ xs) (suc j) y q e = get-quiet xs j y (omega (arith, q)) e

-- An entry behind others that are not ready is among the first, or not ready.
pub append-get :
    (xs ys : List Entry) (j : ℕ) (y : Entry)
    → ready ys ≡ 0
    → get_elem? (xs ++ ys) j ≡ some y
    → (get_elem? xs j ≡ some y) ⊎ (weight y ≡ 0)
append-get [] ys j y q e = inr (get-quiet ys j y q e)
append-get (x ∷ xs) ys zero y q e = inl e
append-get (x ∷ xs) ys (suc j) y q e = append-get xs ys j y q e

-- An entry that is ready counts.
pub ready-get :
    (xs : List Entry) (j : ℕ) (y : Entry) → get_elem? xs j ≡ some y → weight y ≢ 0 → 0 < ready xs
ready-get [] j y e active = cc
ready-get (x ∷ xs) zero y e active = let same : x ≡ y = cc in omega (arith, ap weight same, active)
ready-get (x ∷ xs) (suc j) y e active = omega (arith, ready-get xs j y e active)
