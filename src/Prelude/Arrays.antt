-- ===== src/Prelude/Arrays.antt =====
-- Arrays as lists: writes, prefixes and two arrays in step.
use Prim.Native.Nat.{ℕ, zero, suc, ◌≤◌, ◌<◌}
use mathlib.Core.Path.{◌≡◌, refl, ap}
use mathlib.Core.List.{List, [], ◌∷◌, ◌++◌, Perm}
use mathlib.Core.List.Perm
use mathlib.Core.Option
use mathlib.Core.Option.{Option, none, some}
use native.Mathlib.Omega.{arith}
use linux_modern_io_multiple.Prelude.Lists.{length, take, set, get_elem?}

module _ {ℓ} {A : Type ℓ} where
  pub take_all : (n : ℕ) (xs : List A) → length xs ≤ n → take n xs ≡ xs
  take_all zero [] h = refl
  take_all (suc n) [] h = refl
  take_all zero (x ∷ xs) h = absurd (omega arith)
  take_all (suc n) (x ∷ xs) h = ap (λ t. x ∷ t) (take_all n xs (omega arith))

  pub take-append_le : (n : ℕ) (xs ys : List A) → n ≤ length xs → take n (xs ++ ys) ≡ take n xs
  take-append_le zero xs ys h = refl
  take-append_le (suc n) [] ys h = absurd (omega arith)
  take-append_le (suc n) (x ∷ xs) ys h = ap (λ t. x ∷ t) (take-append_le n xs ys (omega arith))

  -- A write at the end of a prefix makes it one longer.
  pub take-set_end :
      (n : ℕ) (xs : List A) (a : A)
      → n < length xs
      → take (suc n) (set xs n a) ≡ take n xs ++ (a ∷ [])
  take-set_end n [] a h = absurd (omega arith)
  take-set_end zero (x ∷ xs) a h = refl
  take-set_end (suc n) (x ∷ xs) a h = ap (λ t. x ∷ t) (take-set_end n xs a (omega arith))

  -- A write behind a prefix does not show in it.
  pub take-set_ge : (n i : ℕ) (xs : List A) (a : A) → n ≤ i → take n (set xs i a) ≡ take n xs
  take-set_ge zero i xs a h = refl
  take-set_ge (suc n) i [] a h = refl
  take-set_ge (suc n) zero (x ∷ xs) a h = absurd (omega arith)
  take-set_ge (suc n) (suc i) (x ∷ xs) a h = ap (λ t. x ∷ t) (take-set_ge n i xs a (omega arith))

  pub take-set : (n i : ℕ) (xs : List A) (a : A) → take n (set xs i a) ≡ set (take n xs) i a
  take-set zero i xs a = refl
  take-set (suc n) i [] a = refl
  take-set (suc n) zero (x ∷ xs) a = refl
  take-set (suc n) (suc i) (x ∷ xs) a = ap (λ t. x ∷ t) (take-set n i xs a)

  pub get_elem?-take : (n i : ℕ) (xs : List A) → i < n → get_elem? (take n xs) i ≡ get_elem? xs i
  get_elem?-take zero i xs h = absurd (omega arith)
  get_elem?-take (suc n) i [] h = refl
  get_elem?-take (suc n) zero (x ∷ xs) h = refl
  get_elem?-take (suc n) (suc i) (x ∷ xs) h = get_elem?-take n i xs (omega arith)

  pub get_elem?_lt : (i : ℕ) (xs : List A) → i < length xs → (a : A) × (get_elem? xs i ≡ some a)
  get_elem?_lt i [] h = absurd (omega arith)
  get_elem?_lt zero (x ∷ xs) h = (x, refl)
  get_elem?_lt (suc i) (x ∷ xs) h = get_elem?_lt i xs (omega arith)

module _ {ℓ κ} {A : Type ℓ} {B : Type κ} where
  abbrev pub zip : List A → List B → List (A × B)
  zip [] ys = []
  zip (x ∷ xs) [] = []
  zip (x ∷ xs) (y ∷ ys) = (x, y) ∷ zip xs ys

  pub zip-append :
      (xs : List A) (ys : List B) (us : List A) (vs : List B)
      → length xs ≡ length ys
      → zip (xs ++ us) (ys ++ vs) ≡ zip xs ys ++ zip us vs
  zip-append [] [] us vs e = refl
  zip-append [] (y ∷ ys) us vs e = absurd (omega arith)
  zip-append (x ∷ xs) [] us vs e = absurd (omega arith)
  zip-append (x ∷ xs) (y ∷ ys) us vs e = ap (λ t. (x, y) ∷ t) (zip-append xs ys us vs (omega arith))

  pub zip-set :
      (xs : List A) (ys : List B) (i : ℕ) (a : A) (b : B)
      → zip (set xs i a) (set ys i b) ≡ set (zip xs ys) i (a, b)
  zip-set [] ys i a b = refl
  zip-set (x ∷ xs) [] zero a b = refl
  zip-set (x ∷ xs) [] (suc i) a b = refl
  zip-set (x ∷ xs) (y ∷ ys) zero a b = refl
  zip-set (x ∷ xs) (y ∷ ys) (suc i) a b = ap (λ t. (x, y) ∷ t) (zip-set xs ys i a b)

  pub length-zip :
      (xs : List A) (ys : List B) → length xs ≡ length ys → length (zip xs ys) ≡ length xs
  length-zip [] ys e = refl
  length-zip (x ∷ xs) [] e = absurd (omega arith)
  length-zip (x ∷ xs) (y ∷ ys) e = ap suc (length-zip xs ys (omega arith))

  pub get_elem?-zip :
      (xs : List A) (ys : List B) (i : ℕ) {a : A} {b : B}
      → get_elem? xs i ≡ some a
      → get_elem? ys i ≡ some b
      → get_elem? (zip xs ys) i ≡ some (a, b)
  get_elem?-zip [] ys i e f = cc
  get_elem?-zip (x ∷ xs) [] i e f = cc
  get_elem?-zip (x ∷ xs) (y ∷ ys) zero e f = cc
  get_elem?-zip (x ∷ xs) (y ∷ ys) (suc i) e f = get_elem?-zip xs ys i e f

module _ {ℓ κ} {A : Type ℓ} {B : Type κ} where
  pub get_elem?-zip_fst :
      (xs : List A) (ys : List B) (i : ℕ) {a : A} {b : B}
      → get_elem? (zip xs ys) i ≡ some (a, b)
      → get_elem? xs i ≡ some a
  get_elem?-zip_fst [] ys i e = cc
  get_elem?-zip_fst (x ∷ xs) [] i e = cc
  get_elem?-zip_fst (x ∷ xs) (y ∷ ys) zero {a} {b} e = ap (λ t. Option.map (λ (p : A × B). p.0) t) e
  get_elem?-zip_fst (x ∷ xs) (y ∷ ys) (suc i) e = get_elem?-zip_fst xs ys i e

-- Removal in constant time: the last element takes the place of the removed one.
module _ {ℓ} {A : Type ℓ} where
  abbrev pub without_last : List A → List A
  without_last [] = []
  without_last (x ∷ []) = []
  without_last (x ∷ (y ∷ r)) = x ∷ without_last (y ∷ r)

  abbrev pub last_or : A → List A → A
  last_or d [] = d
  last_or d (x ∷ r) = last_or x r

  unfoldable pub swap_remove : ℕ → List A → List A
  swap_remove i [] = []
  swap_remove zero (x ∷ []) = []
  swap_remove zero (x ∷ (y ∷ r)) = last_or y r ∷ without_last (y ∷ r)
  swap_remove (suc i) (x ∷ r) = x ∷ swap_remove i r

  without_last-take :
      (m : ℕ) (x : A) (r : List A) → length r ≡ m → without_last (x ∷ r) ≡ take m (x ∷ r)
  without_last-take zero x [] e = refl
  without_last-take (suc m) x [] e = absurd (omega arith)
  without_last-take zero x (y ∷ r) e = absurd (omega arith)
  without_last-take (suc m) x (y ∷ r) e = ap (λ t. x ∷ t) (without_last-take m y r (omega arith))

  last_or-get_elem? :
      (m : ℕ) (x e : A) (r : List A) → length r ≡ m → get_elem? (x ∷ r) m ≡ some e → last_or x r ≡ e
  last_or-get_elem? zero x e [] h g = cc
  last_or-get_elem? (suc m) x e [] h g = absurd (omega arith)
  last_or-get_elem? zero x e (y ∷ r) h g = absurd (omega arith)
  last_or-get_elem? (suc m) x e (y ∷ r) h g = last_or-get_elem? m y e r (omega arith) g

  -- As the code does it: a write of the last element, and one element fewer.
  pub swap_remove-set :
      (i m : ℕ) (xs : List A) (e : A)
      → i < length xs
      → length xs ≡ suc m
      → get_elem? xs m ≡ some e
      → swap_remove i xs ≡ set (take m xs) i e
  unfolding swap_remove
  swap_remove-set i m [] e h k g = absurd (omega arith)
  swap_remove-set zero zero (x ∷ []) e h k g = refl
  swap_remove-set zero (suc m) (x ∷ []) e h k g = absurd (omega arith)
  swap_remove-set zero zero (x ∷ (y ∷ r)) e h k g = absurd (omega arith)
  swap_remove-set zero (suc m) (x ∷ (y ∷ r)) e h k g =
      rw (last_or-get_elem? m y e r (omega arith) g, without_last-take m y r (omega arith))
  swap_remove-set (suc i) zero (x ∷ xs) e h k g = absurd (omega arith)
  swap_remove-set (suc i) (suc m) (x ∷ xs) e h k g =
      ap (λ t. x ∷ t) (swap_remove-set i m xs e (omega arith) (omega arith) g)

  last-perm : (x : A) (r : List A) → Perm (last_or x r ∷ without_last (x ∷ r)) (x ∷ r)
  last-perm x [] = Perm.refl (x ∷ [])
  last-perm x (y ∷ r) =
      Perm.trans (Perm.swap x (last_or y r) (without_last (y ∷ r))) (Perm.cons x (last-perm y r))

  -- Up to order, one occurrence of the element is gone and nothing else.
  pub swap_remove-perm :
      (i : ℕ) (xs : List A) (x : A) → get_elem? xs i ≡ some x → Perm (x ∷ swap_remove i xs) xs
  unfolding swap_remove
  swap_remove-perm i [] x g = cc
  swap_remove-perm zero (y ∷ []) x g = let e : y ≡ x = cc in rw e (Perm.refl (x ∷ []))
  swap_remove-perm zero (y ∷ (z ∷ r)) x g = let e : y ≡ x = cc in rw e (Perm.cons x (last-perm z r))
  swap_remove-perm (suc i) (y ∷ r) x g =
      Perm.trans (Perm.swap y x (swap_remove i r)) (Perm.cons y (swap_remove-perm i r x g))
