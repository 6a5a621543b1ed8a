-- ===== src/Measurements/Holder.antt =====
-- `meas_value_holder_t` as its eight bytes, the lowest first.
use native.Mathlib.Nat.{pow-suc}
use linux_modern_io_multiple.Prelude.{
  ℕ, zero, suc, ◌+◌, ◌*◌, ◌/◌, ◌%◌, ◌^◌, ◌<◌, ◌≡◌, refl, ap, arith, List, [], ◌∷◌, length,
}

unfoldable pub le_bytes : ℕ → ℕ → List ℕ
le_bytes zero v = []
le_bytes (suc n) v = (v % 256) ∷ le_bytes n (v / 256)

unfoldable pub from_le_bytes : List ℕ → ℕ
from_le_bytes [] = 0
from_le_bytes (b ∷ bs) = b + 256 * from_le_bytes bs

pub length-le_bytes : (n v : ℕ) → length (le_bytes n v) ≡ n
unfolding le_bytes
length-le_bytes zero v = refl
length-le_bytes (suc n) v = ap suc (length-le_bytes n (v / 256))

pub from_le_bytes-le_bytes : (n v : ℕ) → v < 256 ^ n → from_le_bytes (le_bytes n v) ≡ v
unfolding le_bytes from_le_bytes
from_le_bytes-le_bytes zero v h = omega arith
from_le_bytes-le_bytes (suc n) v h =
    let small : v / 256 < 256 ^ n = omega (arith, pow-suc 256 n) in
    omega (arith, from_le_bytes-le_bytes n (v / 256) small)

-- `sizeof(struct meas_value_holder)`
abbrev pub sizeof_holder : ℕ
sizeof_holder = 8

-- `meas_create_value_holder`
unfoldable pub create_value_holder : ℕ → List ℕ
create_value_holder value = le_bytes sizeof_holder value

-- `holder->value`
unfoldable pub holder_value : List ℕ → ℕ
holder_value bytes = from_le_bytes bytes

pub holder_value-create_value_holder :
    (v : ℕ) → v < 2 ^ 64 → holder_value (create_value_holder v) ≡ v
unfolding holder_value create_value_holder
holder_value-create_value_holder v h = from_le_bytes-le_bytes 8 v h

pub length-create_value_holder : (v : ℕ) → length (create_value_holder v) ≡ 8
unfolding create_value_holder
length-create_value_holder v = length-le_bytes 8 v
