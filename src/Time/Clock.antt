-- ===== src/Time/Clock.antt =====
-- The clock functions of code/c/common/time_utils.c. What `clock_gettime` writes is an argument, `none`
-- where it fails: its return code is dropped, and `*ts` stays as it was.
use linux_modern_io_multiple.Prelude.{ℕ, Option, none, some}
use linux_modern_io_multiple.Prelude.Run.{Run, ok, ◌>>=◌, from_cell}
use linux_modern_io_multiple.Time.{Timespec, timespec_to_ns}

-- The memory at `ts`, `none` as long as nothing is written there.
unfoldable pub now_monotonic_p :
    (clock_gettime : Option Timespec) → Option Timespec → Option Timespec
now_monotonic_p none ts = ts
now_monotonic_p (some now) ts = some now

-- The variable is not initialised.
unfoldable pub now_monotonic : (clock_gettime : Option Timespec) → Run Timespec
unfolding now_monotonic_p
now_monotonic clock_gettime = from_cell (now_monotonic_p clock_gettime none)

unfoldable pub now_monotonic_ns : (clock_gettime : Option Timespec) → Run ℕ
now_monotonic_ns clock_gettime = now_monotonic clock_gettime >>= λ ts. ok (timespec_to_ns ts)

-- The memory at `ns` afterwards.
unfoldable pub now_monotonic_ns_p : (clock_gettime : Option Timespec) → Option ℕ → Run (Option ℕ)
now_monotonic_ns_p clock_gettime ns =
    now_monotonic clock_gettime >>= λ ts. ok (some (timespec_to_ns ts))
