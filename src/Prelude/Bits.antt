-- ===== src/Prelude/Bits.antt =====
-- `x & mask` for a mask of low bits, at every width, from the digit recursion that the native
-- operation stands for.
use Prim.Native.Nat.{
  ℕ, zero, suc, ◌+◌, ◌-◌, ◌*◌, ◌/◌, ◌%◌, ◌^◌, ◌≤◌, ◌<◌, min, bit_and, digits, bit_and-bitwise,
}
use mathlib.Core.Path.{◌≡◌, ap, ◌∙◌, sym}
use native.Mathlib.Omega.{arith}
use native.Mathlib.Nat.{
  pow-suc, one-le-pow, div-add-mod, mod-lt, mod-eq_of_lt, add-mul-mod_self_right,
}

-- The digits of a conjunction, on fuel.
abbrev conjunction : ℕ → ℕ → ℕ → ℕ
conjunction fuel a b = digits (λ _. zero) min fuel a b

double_mod : (m q r : ℕ) → 0 < m → r < 2 → (q * 2 + r) % (m * 2) ≡ q % m * 2 + r
double_mod m q r pos small =
    let whole : q * 2 + r ≡ (q % m * 2 + r) + (q / m) * (m * 2) =
      omega (arith, ap (λ (t : ℕ). t * 2) (div-add-mod q m)) in
    rw whole (
      add-mul-mod_self_right (q % m * 2 + r) (q / m) (m * 2)
      ∙ mod-eq_of_lt (omega (arith, mod-lt q pos)))

conjunction-mask : (k fuel a : ℕ) → a ≤ fuel → conjunction fuel a (2 ^ k - 1) ≡ a % 2 ^ k
conjunction-mask k zero zero h = omega arith
conjunction-mask k zero (suc a) h = absurd (omega arith)
conjunction-mask k (suc fuel) zero h = omega arith
conjunction-mask zero (suc fuel) (suc a) h =
    omega (arith, conjunction-mask zero fuel (suc a / 2) (omega arith))
conjunction-mask (suc k) (suc fuel) (suc a) h =
    let one : 1 ≤ 2 ^ k = one-le-pow k 2 (omega arith) in
    let half : (2 ^ suc k - 1) / 2 ≡ 2 ^ k - 1 = omega (arith, pow-suc 2 k) in
    let odd : (2 ^ suc k - 1) % 2 ≡ 1 = omega (arith, pow-suc 2 k) in
    let digit : min (suc a % 2) 1 ≡ suc a % 2 = omega arith in
    let split : suc a / 2 * 2 + suc a % 2 ≡ suc a = omega arith in
    rw (half, odd, conjunction-mask k fuel (suc a / 2) (omega arith), digit, pow-suc 2 k)
      (sym (double_mod (2 ^ k) (suc a / 2) (suc a % 2) one (omega arith))
        ∙ ap (λ (t : ℕ). t % (2 ^ k * 2)) split)

-- A mask of `k` ones keeps the remainder by `2 ^ k`.
pub bit_and-mask : (k a : ℕ) → bit_and a (2 ^ k - 1) ≡ a % 2 ^ k
bit_and-mask k a = bit_and-bitwise a (2 ^ k - 1) ∙ conjunction-mask k a a (omega arith)
