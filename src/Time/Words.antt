-- ===== src/Time/Words.antt =====
-- Nanoseconds in a `uint64_t`.
use linux_modern_io_multiple.Prelude.{ℕ, ◌+◌, ◌*◌, ◌-◌, ◌^◌, ◌≤◌, ◌<◌, ◌≡◌, arith}
use linux_modern_io_multiple.Prelude.Int.{◌+ℤ◌, ℤ, pos, ◌-ℤ◌}
use linux_modern_io_multiple.Time.{
  Timespec, number_10e9, pattern_of, timespec_to_ns, ns_to_timespec, time_delta, rebalance,
  timespec, to_int, quotient, extract_seconds, align_signs,
}
use linux_modern_io_multiple.Time.Balance.{abs, total_ns, IsBalanced, time_delta-total_ns}

-- `timespec_to_ns` gives back every count of nanoseconds that `ns_to_timespec` took apart, and what
-- is taken apart is balanced.
pub timespec_to_ns-ns_to_timespec :
    (ns : ℕ)
    → ns < 2 ^ 64
    → (timespec_to_ns (ns_to_timespec ns) ≡ ns) × IsBalanced (ns_to_timespec ns)
unfolding timespec_to_ns ns_to_timespec
timespec_to_ns-ns_to_timespec ns h = ground arith

-- `timespec_to_ns` is the length of time modulo 2^64, negative fields included.
pub timespec_to_ns-total_ns :
    (ts : Timespec) → timespec_to_ns ts ≡ pattern_of (2 ^ 64) (total_ns ts)
unfolding timespec_to_ns total_ns
timespec_to_ns-total_ns ts = ground arith

-- The latency that a server records: with `start` not after `end` and less than 2^64 nanoseconds
-- between them, it is the time between the two, with no wrap.
pub timespec_to_ns-time_delta :
    (end start : Timespec) (d : ℕ)
    → IsBalanced end
    → IsBalanced start
    → d < 2 ^ 64
    → total_ns end -ℤ total_ns start ≡ pos d
    → timespec_to_ns (time_delta end start) ≡ d
timespec_to_ns-time_delta end start d be bs small e =
    rw (timespec_to_ns-total_ns, (time_delta-total_ns end start be bs).0, e) (omega arith)

abs-sub : (a b : ℤ) → abs (a -ℤ b) ≤ abs a + abs b
unfolding ◌-ℤ◌
abs-sub a b = ground arith

-- The whole seconds in a small number of nanoseconds, and what is left.
extract_seconds-bounds :
    (ts : Timespec)
    → abs ts.nsec < 2 * number_10e9
    → (to_int (quotient ts.nsec number_10e9) ≡ quotient ts.nsec number_10e9)
      × (abs (extract_seconds ts).sec ≤ abs ts.sec + 1)
      × (abs (extract_seconds ts).nsec < number_10e9)
unfolding extract_seconds ◌+ℤ◌
extract_seconds-bounds ts h = ground arith

align_signs-bounds :
    (ts : Timespec)
    → abs ts.nsec < number_10e9
    → (abs (align_signs ts).sec ≤ abs ts.sec) × (abs (align_signs ts).nsec < number_10e9)
unfolding align_signs ◌+ℤ◌ ◌-ℤ◌
align_signs-bounds ts h = ground arith

-- The sums that move a number to either side.
moved-fits :
    (z : ℤ) (d : ℕ) → abs z + d < 2 ^ 63 → (abs (z +ℤ pos d) < 2 ^ 63) × (abs (z -ℤ pos d) < 2 ^ 63)
unfolding ◌+ℤ◌ ◌-ℤ◌
moved-fits z d h = ground arith

-- The fields within `time_delta` after the whole seconds moved.
abbrev pub extracted_of : Timespec → Timespec → Timespec
extracted_of a b = extract_seconds (timespec (a.sec -ℤ b.sec) (a.nsec -ℤ b.nsec))

-- No step of `time_delta` overflows, with seconds of at most 62 bits: both differences fit 64 bits;
-- the whole seconds in the nanoseconds are not changed by their conversion to `int`; the seconds that
-- they are added to fit 64 bits, and so do the nanoseconds that are left with a second added or taken
-- away; the result's seconds fit 64 bits, and its nanoseconds are less than a second.
pub time_delta-fits :
    (a b : Timespec)
    → IsBalanced a
    → IsBalanced b
    → abs a.sec < 2 ^ 62
    → abs b.sec < 2 ^ 62
    → (abs (a.sec -ℤ b.sec) < 2 ^ 63)
      × (abs (a.nsec -ℤ b.nsec) < 2 ^ 63)
      × (to_int (quotient (a.nsec -ℤ b.nsec) number_10e9) ≡ quotient (a.nsec -ℤ b.nsec) number_10e9)
      × (abs (extracted_of a b).sec < 2 ^ 63)
      × (abs ((extracted_of a b).nsec +ℤ pos number_10e9) < 2 ^ 63)
      × (abs ((extracted_of a b).nsec -ℤ pos number_10e9) < 2 ^ 63)
      × (abs (time_delta a b).sec < 2 ^ 63)
      × (abs (time_delta a b).nsec < number_10e9)
unfolding time_delta rebalance
time_delta-fits a b ba bb ha hb =
    let gap = timespec (a.sec -ℤ b.sec) (a.nsec -ℤ b.nsec) in
    let apart : abs (a.sec -ℤ b.sec) ≤ 2 ^ 63 - 2 = omega (arith, abs-sub a.sec b.sec) in
    let near : abs (a.nsec -ℤ b.nsec) < 2 * number_10e9 =
      omega (arith, abs-sub a.nsec b.nsec, ba.small, bb.small) in
    let (whole, sec, nsec) = extract_seconds-bounds gap near in
    let (last_sec, last_nsec) = align_signs-bounds (extract_seconds gap) nsec in
    let (nsec_up, nsec_down) =
      moved-fits (extract_seconds gap).nsec number_10e9 (omega (arith, nsec)) in
    (
      omega (arith, apart),
      omega (arith, near),
      whole,
      omega (arith, apart, sec),
      nsec_up,
      nsec_down,
      omega (arith, apart, sec, last_sec),
      last_nsec,
    )
