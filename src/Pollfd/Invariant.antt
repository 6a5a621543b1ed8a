-- ===== src/Pollfd/Invariant.antt =====
-- The representation invariant of the vector, and that each operation keeps it.
use linux_modern_io_multiple.Prelude.{◌^◌, ◌<◌, ◌≤◌, ◌≡◌, arith, length}
use linux_modern_io_multiple.Prelude.Run.{ok}
use linux_modern_io_multiple.Pollfd.{PollfdVector, Answer, pollfdv_create}

-- Both arrays have `capacity` entries, `size` of them in use.
pub record IsValid (v : PollfdVector) : Type 0 where
  pub slots : length v.slots ≡ v.capacity
  pub pd : length v.pd ≡ v.capacity
  pub within : v.size ≤ v.capacity
  pub some_room : 0 < v.capacity
  pub small : v.capacity < 2 ^ 32

-- `realloc` gives what was asked for: room for the new part of each array.
pub record Gives (v : PollfdVector) (a : Answer) : Type 0 where
  pub slots : length a.data_tail ≡ v.capacity
  pub pd : length a.pd_tail ≡ v.capacity

pollfdv_create-IsValid : (a : Answer) {v : PollfdVector} → pollfdv_create a ≡ ok v → IsValid v
unfolding pollfdv_create
pollfdv_create-IsValid a e = ground (arith)
