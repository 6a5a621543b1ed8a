-- ===== src/Prelude/Run.antt =====
-- The outcome of a run of C code: it returns, it leaves the process by `exit(EXIT_FAILURE)`
-- (`__assertion_prints_and_exit__` of code/c/common/utils.h), or it does what C leaves undefined,
-- such as an access through a null, freed or foreign pointer. A loop on fuel may run out of it.
use mathlib.Core.Path.{◌≡◌, refl, subst}
use mathlib.Core.Bool.{Bool, true, false}
use linux_modern_io_multiple.Prelude.Int.{ℤ, pos, negsuc}
use linux_modern_io_multiple.Prelude.Tests.{◌==◌, if◌then◌else◌}
use Prim.Native.Nat.{ℕ}
use mathlib.Core.Option.{Option, none, some}

pub data Run {ℓ} (A : Type ℓ) : Type ℓ where
  ok : A → Run A
  exited : Run A
  fault : Run A
  out_of_fuel : Run A

infixl 5 ◌>>=◌ ◌>>◌
-- What does not return does not go on.
abbrev pub ◌>>=◌ {κ ℓ} : {R : Type κ} {S : Type ℓ} → Run R → (R → Run S) → Run S
out_of_fuel >>= next = out_of_fuel
fault >>= next = fault
exited >>= next = exited
ok r >>= next = next r

-- A sequence that returned: so did its first part, and the rest of it from there.
pub >>=-returned {κ ℓ} :
    {R : Type κ} {S : Type ℓ} (first : Run R) (next : R → Run S) {s : S}
    → (first >>= next) ≡ ok s
    → (r : R) × (first ≡ ok r) × (next r ≡ ok s)
>>=-returned out_of_fuel next e = cc
>>=-returned fault next e = cc
>>=-returned exited next e = cc
>>=-returned (ok r) next e = (r, refl, e)

abbrev pub ◌>>◌ {ℓ} : {S : Type ℓ} → Run (Unit {0}) → Run S → Run S
first >> second = first >>= λ _. second

-- `assert_zero`: any code but 0 leaves the process. `io_uring_assert_zero` does the same.
abbrev pub assert_zero : ℤ → Run (Unit {0})
assert_zero (pos n) = if n == 0 then ok tt else exited
assert_zero (negsuc n) = exited

-- `assert_nonn`: a negative code leaves the process; the code is handed on. `io_uring_assert_nonn`
-- does the same.
abbrev pub assert_nonn : ℤ → Run ℕ
assert_nonn (pos n) = ok n
assert_nonn (negsuc n) = exited

-- `assert_nnull`: the null pointer leaves the process.
abbrev pub assert_nnull : ℕ → Run (Unit {0})
assert_nnull p = if p == 0 then exited else ok tt

-- A read that found nothing is a read out of bounds.
abbrev pub from_cell {ℓ} : {A : Type ℓ} → Option A → Run A
from_cell none = fault
from_cell (some a) = ok a

-- `Q` holds of what a run returns, if it returns.
abbrev pub Yields {κ ℓ} : {A : Type ℓ} → (A → Type κ) → Run A → Type κ
Yields Q (ok a) = Q a
Yields Q exited = Unit
Yields Q fault = Unit
Yields Q out_of_fuel = Unit

pub Yields-ok {κ ℓ} :
    {A : Type ℓ} (Q : A → Type κ) (r : Run A) (a : A) → r ≡ ok a → Yields Q r → Q a
Yields-ok Q r a e y = subst (Yields Q) e y

pub Yields-weaken {κ ℓ m} :
    {A : Type ℓ} (P : A → Type m) (Q : A → Type κ) (r : Run A)
    → Yields P r
    → ((a : A) → P a → Q a)
    → Yields Q r
Yields-weaken P Q (ok a) y g = g a y
Yields-weaken P Q exited y g = tt
Yields-weaken P Q fault y g = tt
Yields-weaken P Q out_of_fuel y g = tt

-- What is known of the first part, and what the rest makes of it.
pub Yields-chain {κ ℓ ι m} :
    {A : Type ℓ} {B : Type ι} (P : A → Type m) (Q : B → Type κ) (r : Run A) (f : A → Run B)
    → Yields P r
    → ((a : A) → P a → Yields Q (f a))
    → Yields Q (r >>= f)
Yields-chain P Q (ok a) f y g = g a y
Yields-chain P Q exited f y g = tt
Yields-chain P Q fault f y g = tt
Yields-chain P Q out_of_fuel f y g = tt

pub Yields-bind {κ ℓ ι} :
    {A : Type ℓ} {B : Type ι} (Q : B → Type κ) (r : Run A) (f : A → Run B)
    → ((a : A) → Yields Q (f a))
    → Yields Q (r >>= f)
Yields-bind Q (ok a) f g = g a
Yields-bind Q exited f g = tt
Yields-bind Q fault f g = tt
Yields-bind Q out_of_fuel f g = tt

pub Yields-if {κ ℓ} :
    {A : Type ℓ} (Q : A → Type κ) (b : Bool) (r s : Run A)
    → Yields Q r
    → Yields Q s
    → Yields Q (if b then r else s)
Yields-if Q true r s y z = y
Yields-if Q false r s y z = z
