-- ===== src/Time/Order.antt =====
-- `timespec_lt` against the order of the lengths of time.
use linux_modern_io_multiple.Prelude.{◌≡◌, ◌↔◌, true, arith}
use linux_modern_io_multiple.Prelude.Int.{ltb_ℤ}
use linux_modern_io_multiple.Time.{Timespec, timespec_lt}
use linux_modern_io_multiple.Time.Balance.{total_ns, total_ns_parts, IsBalanced}

-- On balanced times `timespec_lt` is the order of the lengths of time, past and future alike.
pub timespec_lt_iff :
    (a b : Timespec)
    → IsBalanced a
    → IsBalanced b
    → (timespec_lt a b ≡ true) ↔ (ltb_ℤ (total_ns a) (total_ns b) ≡ true)
unfolding timespec_lt
timespec_lt_iff a b ba bb = ground (arith, total_ns_parts a, total_ns_parts b)
