-- ===== src/Measurements.antt =====
-- code/c/common/measurements.c: a preallocated container of entries of one size, in bytes.
pub mod Entries
pub mod Holder
use linux_modern_io_multiple.Prelude.{
  ℕ, ◌+◌, ◌*◌, ◌%◌, ◌^◌, List, ◌++◌, Option, none, some, take, drop, length, leb, ◌==◌,
  if◌then◌else◌, not,
}
use linux_modern_io_multiple.Prelude.Int.{ℤ, pos, negsuc}
use linux_modern_io_multiple.Prelude.Run.{Run, ok, exited, ◌>>=◌, ◌>>◌, from_cell}

-- The bytes that a pointer from `malloc` points at; `none` is NULL.
abbrev pub Block : Type 0
Block = Option (List ℕ)

-- `meas_pcontainer_t`
pub record Container : Type 0 where
  pub entry_size : ℕ
  pub capacity : ℕ
  pub size : ℕ
  pub ptr : Block

-- `memcpy` of `bytes` to offset `off`: a fault through NULL and past the end of the block.
abbrev pub copy_to : Block → ℕ → List ℕ → Run Block
copy_to none off bytes = from_cell none
copy_to (some b) off bytes =
    if leb (off + length bytes) (length b)
    then ok (some (take off b ++ (bytes ++ drop (off + length bytes) b)))
    else from_cell none

-- The product that `malloc` is called with wraps in `size_t`.
abbrev pub requested : ℕ → ℕ → ℕ
requested entry_size capacity = entry_size * capacity % 2 ^ 64

-- `block` is what `malloc` answers.
pub pcontainer_create : (entry_size capacity : ℕ) → (block : Block) → Run Container
pcontainer_create entry_size capacity none = exited
pcontainer_create entry_size capacity (some b) =
    ok (record { entry_size = entry_size; capacity = capacity; size = 0; ptr = some b })

-- The holder is its bytes, `holder_size` of them. The result is the code returned and the container.
unfoldable pub pcontainer_store : Container → List ℕ → Run (ℤ × Container)
pcontainer_store c holder =
    if not (c.entry_size == length holder)
    then ok (negsuc 0, c)
    else (if c.size == c.capacity
        then ok (negsuc 0, c)
        else (copy_to c.ptr (c.size * length holder) holder >>= λ p.
            ok (pos 0, record c { ptr = p; size = c.size + 1 })))

unfoldable pub pcontainer_free : Container → Container
pcontainer_free c = record c { ptr = none; size = 0 }
