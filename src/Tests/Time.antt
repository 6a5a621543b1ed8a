-- ===== src/Tests/Time.antt =====
-- Times with nanoseconds above a second, and of both signs.
use linux_modern_io_multiple.Prelude.{◌^◌, ◌<◌, ◌≡◌, inl, inr, refl, arith}
use linux_modern_io_multiple.Prelude.Int.{pos, negsuc, ◌-ℤ◌, ◌+ℤ◌}
use linux_modern_io_multiple.Time.{
  to_int, quotient, number_10e9, Timespec, timespec, rebalance, time_delta,
}
use linux_modern_io_multiple.Time.Balance.{
  abs, total_ns, IsBalanced, rebalance_lem, time_delta-total_ns,
}
use linux_modern_io_multiple.Time.Words.{extracted_of, time_delta-fits}

-- 5 s and -2_300_000_000 ns
abbrev mixed : Timespec
mixed = timespec (pos 5) (negsuc 2_299_999_999)

abbrev early : Timespec
early = timespec (pos 7) (pos 900_000_000)

abbrev late : Timespec
late = timespec (pos 9) (pos 100_000_000)

early-IsBalanced : IsBalanced early
early-IsBalanced = record { small = omega arith; signs = inl (refl, refl) }

late-IsBalanced : IsBalanced late
late-IsBalanced = record { small = omega arith; signs = inl (refl, refl) }

-- -1_200_000_000 ns
abbrev delta : Timespec
delta = timespec (negsuc 0) (negsuc 199_999_999)

delta-IsBalanced : IsBalanced delta
delta-IsBalanced = record { small = omega arith; signs = inr (refl, refl) }

rebalance_lem_example :
    (total_ns (rebalance mixed) ≡ pos 2_700_000_000) × IsBalanced (rebalance mixed)
unfolding total_ns
rebalance_lem_example = rebalance_lem mixed (omega arith)

time_delta-total_ns_example :
    (total_ns (time_delta early late) ≡ total_ns early -ℤ total_ns late)
    × IsBalanced (time_delta early late)
time_delta-total_ns_example = time_delta-total_ns early late early-IsBalanced late-IsBalanced

time_delta-fits_example :
    (abs (early.sec -ℤ late.sec) < 2 ^ 63)
    × (abs (early.nsec -ℤ late.nsec) < 2 ^ 63)
    × (to_int (quotient (early.nsec -ℤ late.nsec) number_10e9)
        ≡ quotient (early.nsec -ℤ late.nsec) number_10e9)
    × (abs (extracted_of early late).sec < 2 ^ 63)
    × (abs ((extracted_of early late).nsec +ℤ pos number_10e9) < 2 ^ 63)
    × (abs ((extracted_of early late).nsec -ℤ pos number_10e9) < 2 ^ 63)
    × (abs (time_delta early late).sec < 2 ^ 63)
    × (abs (time_delta early late).nsec < number_10e9)
time_delta-fits_example =
    time_delta-fits early late early-IsBalanced late-IsBalanced (omega arith) (omega arith)

-- The examples in the comment above `timespec_rebalance`, in nanoseconds.
commented :
    (rebalance (timespec (pos 2) (negsuc 1_299_999)) ≡ timespec (pos 1) (pos 998_700_000))
    × (rebalance (timespec (pos 2) (negsuc 299_999)) ≡ timespec (pos 1) (pos 999_700_000))
    × (rebalance (timespec (negsuc 1) (negsuc 1_299_999)) ≡ timespec (negsuc 1) (negsuc 1_299_999))
    × (rebalance (timespec (negsuc 1) (pos 1_300_000)) ≡ timespec (negsuc 0) (negsuc 998_699_999))
unfolding rebalance ◌+ℤ◌ ◌-ℤ◌
commented = (refl, refl, refl, refl)
