-- ===== src/Pollfd.antt =====
-- code/c/server/poll/pollfd_vector.c: the growing array of `struct pollfd` with private data.
-- Arrays are lists, read and written with their bounds. The array of `struct pollfd` has an address,
-- since a caller keeps a pointer into it; sizes are `uint32_t`.
pub mod Contents
pub mod Invariant
pub mod Removal
use linux_modern_io_multiple.Prelude.{
  ℕ, ◌+◌, ◌-◌, ◌*◌, ◌%◌, ◌^◌, ◌<◌, Bool, List, [], ◌++◌, Option, some, none, get_elem?, set, length,
  take, replicate, map, leb, ltb, ◌==◌, not, if◌then◌else◌,
}
use linux_modern_io_multiple.Prelude.Int.{ℤ, pos, negsuc, eqb_ℤ}
use linux_modern_io_multiple.Prelude.Run.{
  Run, ok, exited, fault, ◌>>=◌, ◌>>◌, assert_nnull, from_cell,
}

abbrev pub Ptr : Type 0
Ptr = ℕ

-- `struct pollfd`; the masks are bit patterns.
pub record Pollfd : Type 0 where
  pub fd : ℤ
  pub events : ℕ
  pub revents : ℕ

-- `struct pollfd_vector`: `data` is the array at the address `base`.
pub record PollfdVector : Type 0 where
  pub base : Ptr
  pub slots : List Pollfd
  pub size : ℕ
  pub capacity : ℕ
  pub pd : List Ptr

-- What the two allocations of a function answer: addresses, 0 for failure, and, for `realloc`, what
-- the new part of each array holds, which is not initialised.
pub record Answer : Type 0 where
  pub data_ptr : Ptr
  pub data_tail : List Pollfd
  pub pd_ptr : Ptr
  pub pd_tail : List Ptr

abbrev pub data_initial_size : ℕ
data_initial_size = 16

abbrev pub data_capacity_extend_mult : ℕ
data_capacity_extend_mult = 2

-- The file descriptor of an empty slot.
abbrev pub no_fd : ℤ
no_fd = negsuc 0

-- An entry of zero bytes, as `calloc` and `memset` leave it, with `fd` then set to -1.
abbrev pub empty_slot : Pollfd
empty_slot = record { fd = no_fd; events = 0; revents = 0 }

-- A store to an array, in its bounds.
abbrev pub store {ℓ} : {A : Type ℓ} → List A → ℕ → A → Run (List A)
store xs i v = if ltb i (length xs) then ok (set xs i v) else fault

unfoldable pub pollfdv_create : Answer → Run PollfdVector
pollfdv_create a = do
  assert_nnull a.data_ptr
  assert_nnull a.pd_ptr
  ok (record {
    base = a.data_ptr;
    slots = replicate data_initial_size empty_slot;
    size = 0;
    capacity = data_initial_size;
    pd = replicate data_initial_size 0;
  })

-- The arrays are gone: an access to either is a fault.
unfoldable pub pollfdv_free : PollfdVector → PollfdVector
pollfdv_free v = record v { base = 0; slots = []; pd = []; size = 0; capacity = 0 }

unfoldable pub pollfdv_extend : PollfdVector → Answer → Run PollfdVector
pollfdv_extend v a =
    let new_capacity = v.capacity * data_capacity_extend_mult % 2 ^ 32 in
    do
      assert_nnull a.data_ptr
      assert_nnull a.pd_ptr
      ok (record v {
        base = a.data_ptr;
        slots = take new_capacity (v.slots ++ a.data_tail);
        pd = take new_capacity (v.pd ++ a.pd_tail);
        capacity = new_capacity;
      })

-- `pollfdv_add` once there may be room: the second test, the two writes, the count.
unfoldable pub add_entry : PollfdVector → Pollfd → Ptr → Run PollfdVector
add_entry v conf private_data = if leb v.capacity v.size then exited else do
  slots ← store v.slots v.size conf
  pd ← store v.pd v.size private_data
  ok (record v { slots = slots; pd = pd; size = (v.size + 1) % 2 ^ 32 })

unfoldable pub pollfdv_add : PollfdVector → Pollfd → Ptr → Answer → Run PollfdVector
unfolding pollfdv_extend add_entry
pollfdv_add v conf private_data a =
    (if leb v.capacity v.size then pollfdv_extend v a else ok v) >>= λ v'.
    add_entry v' conf private_data

-- `size - 1` in `uint32_t`.
abbrev pub last_index : PollfdVector → ℕ
last_index v = (v.size + (2 ^ 32 - 1)) % 2 ^ 32

-- The last entry takes the place of the one at `index`.
unfoldable pub replace_by_last : PollfdVector → ℕ → Run PollfdVector
replace_by_last v index = if index == last_index v then ok v else do
  entry ← from_cell (get_elem? v.slots (last_index v))
  private_data ← from_cell (get_elem? v.pd (last_index v))
  slots ← store v.slots index entry
  pd ← store v.pd index private_data
  ok (record v { slots = slots; pd = pd })

-- The last entry is cleared, and the vector is one shorter.
unfoldable pub drop_last : PollfdVector → Run PollfdVector
drop_last v = do
  slots ← store v.slots (last_index v) empty_slot
  pd ← store v.pd (last_index v) 0
  ok (record v { slots = slots; pd = pd; size = last_index v })

unfoldable pub pollfdv_remove_index : PollfdVector → ℕ → Run PollfdVector
unfolding replace_by_last drop_last
pollfdv_remove_index v index =
    if leb v.capacity index
    then ok v
    else (from_cell (get_elem? v.slots index) >>= λ entry.
        if eqb_ℤ entry.fd no_fd then ok v else (replace_by_last v index >>= drop_last))
