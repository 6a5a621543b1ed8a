-- ===== src/Uring/Ring/Masking.antt =====
-- Positions in a ring of a power of two: free-running counters of 32 bits, masked.
use Prim.Native.Nat.{◌∣◌}
use native.Mathlib.Nat.{
  dvd_refl, dvd-mul_right_of_dvd, pow-suc, one-le-pow, mod-lt, mod-add-mod, pow-le-pow_right,
  mod-mod_of_dvd, mod-eq_of_lt, mod-eq-sub-mod,
}
use linux_modern_io_multiple.Prelude.{
  ℕ, zero, suc, ◌+◌, ◌-◌, ◌%◌, ◌^◌, ◌<◌, ◌≤◌, ◌≡◌, ◌≢◌, arith, bit_and, dec_lt, ap, subst, ◌∙◌, sym,
}
use linux_modern_io_multiple.Prelude.Bits.{bit_and-mask}

-- A ring of `size` slots behind a mask.
pub record IsRing (size mask : ℕ) : Type 0 where
  pub width : ℕ
  pub small : width ≤ 31
  pub size_eq : size ≡ 2 ^ width
  pub mask_eq : mask ≡ 2 ^ width - 1

pub IsRing-positive : {size mask : ℕ} → IsRing size mask → 0 < size
IsRing-positive r = omega (arith, r.size_eq, one-le-pow r.width 2 (omega arith))

-- The counter `n` steps after `head`.
abbrev pub position : ℕ → ℕ → ℕ
position head n = (head + n) % 2 ^ 32

pow-dvd-pow : (w d n : ℕ) → w + d ≡ n → 2 ^ w ∣ 2 ^ n
pow-dvd-pow w zero n e =
    let q : w ≡ n = omega arith in subst (λ t. 2 ^ w ∣ 2 ^ t) q (dvd_refl (2 ^ w))
pow-dvd-pow w (suc d) zero e = absurd (omega arith)
pow-dvd-pow w (suc d) (suc n) e =
    rw (pow-suc 2 n) (dvd-mul_right_of_dvd (2 ^ w) (pow-dvd-pow w d n (omega arith)) 2)

-- Less than a round further is another remainder.
mod-ne : (x d size : ℕ) → 0 < d → d < size → (x + d) % size ≢ x % size
mod-ne x d size h k e =
    let r : x % size < size = mod-lt x (omega arith) in
    elim (dec_lt (x % size + d) size) [
      | yes p ↦ omega (arith, e, mod-add-mod x size d, mod-eq_of_lt p)
      | no p ↦ omega (
        arith,
        e,
        mod-add-mod x size d,
        mod-eq-sub-mod {n = x % size + d} {m = size} (omega arith),
        mod-eq_of_lt {n = x % size + d - size} {m = size} (omega arith),
      )
    ]

module _ {size mask : ℕ} (r : IsRing size mask) where
  pub size_pos : 0 < size
  size_pos = rw r.size_eq (one-le-pow r.width 2 (omega arith))

  pub size_le : size ≤ 2 ^ 31
  size_le = rw r.size_eq (pow-le-pow_right {n = 2} (omega arith) r.small)

  -- The slot of a counter is its remainder, also where the counter has wrapped.
  pub slot_lem : (head n : ℕ) → bit_and (position head n) mask ≡ (head + n) % size
  slot_lem head n =
      rw (r.mask_eq, bit_and-mask r.width (position head n), r.size_eq)
        (mod-mod_of_dvd (2 ^ r.width) (head + n)
          (pow-dvd-pow r.width (32 - r.width) 32 (omega (arith, r.small))))

  pub slot-lt : (x : ℕ) → bit_and x mask < size
  slot-lt x =
      rw (r.mask_eq, bit_and-mask r.width x, r.size_eq)
        (mod-lt x (one-le-pow r.width 2 (omega arith)))

  -- Two of the next `size` counters never share a slot.
  pub slot-ne :
      (head i j : ℕ)
      → i < j
      → j < i + size
      → bit_and (position head i) mask ≢ bit_and (position head j) mask
  slot-ne head i j h k =
      rw (slot_lem head i, slot_lem head j)
        (λ e. mod-ne (head + i) (j - i) size (omega arith) (omega arith) (step ∙ sym e))
    where
      step : (head + i + (j - i)) % size ≡ (head + j) % size
      step = ap (λ (t : ℕ). t % size) (omega arith)
