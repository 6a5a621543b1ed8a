-- ===== src/Time.antt =====
-- code/c/common/time_utils.c: conversions, differences and comparison of `struct timespec`.
-- Fields are `time_t` and `long`, of 64 bits. Their overflow is undefined in C, and the header asks
-- the caller to rule it out: here sums are exact integers, and `Time.Words` says when they fit.
pub mod Balance
pub mod Clock
pub mod Order
pub mod Words
use linux_modern_io_multiple.Prelude.{
  ℕ, suc, ◌+◌, ◌-◌, ◌*◌, ◌/◌, ◌%◌, ◌^◌, Bool, true, false, ◌||◌, ltb, ◌==◌, if◌then◌else◌,
}
use linux_modern_io_multiple.Prelude.Int.{ℤ, pos, negsuc, sub_ℕ, pos_part, neg_part, ltb_ℤ, eqb_ℤ}
use linux_modern_io_multiple.Prelude.Int.{◌+ℤ◌, ◌-ℤ◌}

pub record Timespec : Type 0 where
  pub sec : ℤ
  pub nsec : ℤ

abbrev pub timespec : ℤ → ℤ → Timespec
timespec s n = record { sec = s; nsec = n }

-- `NUMBER_10E9`
abbrev pub number_10e9 : ℕ
number_10e9 = 1_000_000_000

-- `/` and `%` of C round towards zero, and the remainder has the sign of the dividend.
abbrev pub quotient : ℤ → ℕ → ℤ
quotient (pos n) d = pos (n / d)
quotient (negsuc n) d = sub_ℕ 0 (suc n / d)

abbrev pub remainder : ℤ → ℕ → ℤ
remainder (pos n) d = pos (n % d)
remainder (negsuc n) d = sub_ℕ 0 (suc n % d)

-- The bit pattern of an integer in a word of `2 ^ w` values.
abbrev pub pattern_of : ℕ → ℤ → ℕ
pattern_of modulus (pos n) = n % modulus
pattern_of modulus (negsuc n) = modulus - 1 - n % modulus

-- The conversion of a `long` to `int`.
abbrev pub to_int : ℤ → ℤ
to_int z =
    let w = pattern_of (2 ^ 32) z in if ltb w (2 ^ 31) then pos w else negsuc (2 ^ 32 - w - 1)

abbrev pub is_zero : ℤ → Bool
is_zero (pos n) = n == 0
is_zero (negsuc n) = false

abbrev pub is_negative : ℤ → Bool
is_negative (pos n) = false
is_negative (negsuc n) = true

abbrev same : Bool → Bool → Bool
same true b = b
same false true = false
same false false = true

-- The first half of `timespec_rebalance`: whole seconds leave the nanoseconds.
pub extract_seconds : Timespec → Timespec
extract_seconds ts =
    timespec (ts.sec +ℤ to_int (quotient ts.nsec number_10e9)) (remainder ts.nsec number_10e9)

-- The second half: both fields get the same sign.
pub align_signs : Timespec → Timespec
align_signs ts =
    if is_zero ts.sec || is_zero ts.nsec
    then ts
    else (if same (is_negative ts.sec) (is_negative ts.nsec)
        then ts
        else (if is_negative ts.nsec
            then timespec (ts.sec -ℤ pos 1) (ts.nsec +ℤ pos number_10e9)
            else timespec (ts.sec +ℤ pos 1) (ts.nsec -ℤ pos number_10e9)))

unfoldable pub rebalance : Timespec → Timespec
unfolding extract_seconds align_signs
rebalance ts = align_signs (extract_seconds ts)

unfoldable pub time_delta : Timespec → Timespec → Timespec
time_delta minuend subtrahend =
    rebalance (timespec (minuend.sec -ℤ subtrahend.sec) (minuend.nsec -ℤ subtrahend.nsec))

-- `ts_1 < ts_2`, for balanced arguments.
unfoldable pub timespec_lt : Timespec → Timespec → Bool
timespec_lt ts_1 ts_2 =
    if eqb_ℤ ts_1.sec ts_2.sec then ltb_ℤ ts_1.nsec ts_2.nsec else ltb_ℤ ts_1.sec ts_2.sec

-- The sum is taken in `uint64_t`, where a negative field is its bit pattern.
unfoldable pub timespec_to_ns : Timespec → ℕ
timespec_to_ns ts =
    (pattern_of (2 ^ 64) ts.sec * number_10e9 + pattern_of (2 ^ 64) ts.nsec) % 2 ^ 64

unfoldable pub ns_to_timespec : ℕ → Timespec
ns_to_timespec ns = timespec (pos (ns / number_10e9)) (pos (ns % number_10e9))
