-- ===== src/Time/Balance.antt =====
-- What `timespec_rebalance` and `time_delta` compute: the same length of time, in the one form
-- whose fields agree in sign.
use linux_modern_io_multiple.Prelude.{ℕ, ◌∙◌, ap, ap₂, ◌+◌, ◌*◌, ◌^◌, ◌<◌, ◌≡◌, ◌⊎◌, arith}
use linux_modern_io_multiple.Prelude.Int.{ℤ, pos, negsuc, sub_ℕ, pos_part, neg_part}
use linux_modern_io_multiple.Prelude.Int.{◌+ℤ◌, ◌-ℤ◌, int_laws, eq_of_parts}
use linux_modern_io_multiple.Time.{
  Timespec, timespec, number_10e9, quotient, remainder, to_int, extract_seconds, align_signs,
  rebalance, time_delta,
}

-- The time in nanoseconds, an integer of any size.
unfoldable pub total_ns : Timespec → ℤ
total_ns ts =
    sub_ℕ (pos_part ts.sec * number_10e9 + pos_part ts.nsec)
      (neg_part ts.sec * number_10e9 + neg_part ts.nsec)

pub total_ns_parts :
    (ts : Timespec)
    → pos_part (total_ns ts) + neg_part ts.sec * number_10e9 + neg_part ts.nsec
      ≡ neg_part (total_ns ts) + pos_part ts.sec * number_10e9 + pos_part ts.nsec
unfolding total_ns
total_ns_parts ts = ground arith

abbrev pub abs : ℤ → ℕ
abs z = pos_part z + neg_part z

-- Less than a second of nanoseconds, and no two signs in one value.
pub record IsBalanced (ts : Timespec) : Type 0 where
  pub small : abs ts.nsec < number_10e9
  pub signs :
      ((neg_part ts.sec ≡ 0) × (neg_part ts.nsec ≡ 0))
      ⊎ ((pos_part ts.sec ≡ 0) × (pos_part ts.nsec ≡ 0))

-- The whole seconds in the nanoseconds fit an `int`.
abbrev pub FitsInt : Timespec → Type 0
FitsInt ts = abs ts.nsec < 2 ^ 31 * number_10e9

to_int-fits : (z : ℤ) → abs z < 2 ^ 31 → to_int z ≡ z
to_int-fits (pos n) h = ground arith
to_int-fits (negsuc n) h = ground arith

quotient-parts :
    (z : ℤ)
    → (pos_part (quotient z number_10e9) * number_10e9 + pos_part (remainder z number_10e9)
        ≡ pos_part z)
      × (neg_part (quotient z number_10e9) * number_10e9 + neg_part (remainder z number_10e9)
          ≡ neg_part z)
quotient-parts (pos n) = ground arith
quotient-parts (negsuc n) = ground arith

extract_seconds-total_ns :
    (ts : Timespec) → FitsInt ts → total_ns (extract_seconds ts) ≡ total_ns ts
unfolding extract_seconds
extract_seconds-total_ns ts h =
    rw (to_int-fits (quotient ts.nsec number_10e9) (omega (arith, quotient-parts ts.nsec)))
      (omega (int_laws, total_ns_parts, quotient-parts ts.nsec))

align_signs-total_ns : (ts : Timespec) → total_ns (align_signs ts) ≡ total_ns ts
unfolding align_signs total_ns ◌+ℤ◌ ◌-ℤ◌
align_signs-total_ns ts = ground arith

remainder-small : (z : ℤ) → abs (remainder z number_10e9) < number_10e9
remainder-small (pos n) = omega arith
remainder-small (negsuc n) = ground arith

align_signs-IsBalanced : (ts : Timespec) → abs ts.nsec < number_10e9 → IsBalanced (align_signs ts)
unfolding align_signs ◌+ℤ◌ ◌-ℤ◌
align_signs-IsBalanced ts h = ground arith

-- `timespec_rebalance` keeps the length of time, and its result is balanced: less than a second of
-- nanoseconds, both fields of one sign or zero. The whole seconds in the nanoseconds fit an `int`.
pub rebalance_lem :
    (ts : Timespec)
    → FitsInt ts
    → (total_ns (rebalance ts) ≡ total_ns ts) × IsBalanced (rebalance ts)
unfolding rebalance
rebalance_lem ts h = (
  align_signs-total_ns (extract_seconds ts) ∙ extract_seconds-total_ns ts h,
  align_signs-IsBalanced (extract_seconds ts) (remainder-small ts.nsec),
)

balanced_fields :
    (a b : Timespec)
    → IsBalanced a
    → IsBalanced b
    → total_ns a ≡ total_ns b
    → (pos_part a.sec + neg_part b.sec ≡ pos_part b.sec + neg_part a.sec)
      × (pos_part a.nsec + neg_part b.nsec ≡ pos_part b.nsec + neg_part a.nsec)
balanced_fields a b ba bb e =
    omega (arith, ap pos_part e, ap neg_part e, total_ns_parts a, total_ns_parts b)

-- A length of time has one balanced form.
pub IsBalanced-unique :
    (a b : Timespec) → IsBalanced a → IsBalanced b → total_ns a ≡ total_ns b → a ≡ b
IsBalanced-unique a b ba bb e =
    let same = balanced_fields a b ba bb e in
    ap₂ timespec (eq_of_parts a.sec b.sec same.0) (eq_of_parts a.nsec b.nsec same.1)

difference-parts :
    (a b : Timespec)
    → total_ns (timespec (a.sec -ℤ b.sec) (a.nsec -ℤ b.nsec)) ≡ total_ns a -ℤ total_ns b
difference-parts a b = omega (int_laws, total_ns_parts)

difference-FitsInt :
    (a b : Timespec)
    → IsBalanced a
    → IsBalanced b
    → FitsInt (timespec (a.sec -ℤ b.sec) (a.nsec -ℤ b.nsec))
unfolding ◌-ℤ◌
difference-FitsInt a b ba bb = ground arith

-- The difference of two balanced times is balanced, and is the difference of their lengths.
pub time_delta-total_ns :
    (a b : Timespec)
    → IsBalanced a
    → IsBalanced b
    → (total_ns (time_delta a b) ≡ total_ns a -ℤ total_ns b) × IsBalanced (time_delta a b)
unfolding time_delta
time_delta-total_ns a b ba bb =
    let (keeps, balanced) = rebalance_lem _ (difference-FitsInt a b ba bb) in
    (keeps ∙ difference-parts a b, balanced)
