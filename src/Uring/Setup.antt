-- ===== src/Uring/Setup.antt =====
-- code/c/server/io_uring/io_uring_server_utils.c: setting the rings up, mapping them and giving them
-- back. Sizes are `unsigned int`s, pointers are addresses; the flags are those of the kernel's
-- interface. What the system calls answer are arguments.
pub mod Bounds
pub mod Calls
pub mod Entering
pub mod Mapping
use linux_modern_io_multiple.Prelude.{
  ℕ, ◌+◌, ◌*◌, ◌%◌, ◌^◌, Bool, true, false, ◌||◌, List, [], ◌∷◌, ◌++◌, Option, some, none, ltb,
  ◌==◌, not, bit_and, bit_or, if◌then◌else◌,
}
use linux_modern_io_multiple.Prelude.Int.{ℤ, pos, negsuc, eqb_ℤ}
use linux_modern_io_multiple.Prelude.Run.{Run, ok, exited, ◌>>=◌, ◌>>◌, assert_zero, assert_nonn}
use linux_modern_io_multiple.Time.{is_negative}
use linux_modern_io_multiple.Links.{Ptr, null}

-- `struct io_uring_params`, with the two structures of offsets inside it.
pub record Offsets : Type 0 where
  pub head : ℕ
  pub tail : ℕ
  pub ring_mask : ℕ
  pub ring_entries : ℕ
  pub flags : ℕ
  pub entries : ℕ

pub record Params : Type 0 where
  pub sq_entries : ℕ
  pub cq_entries : ℕ
  pub flags : ℕ
  pub sq_thread_cpu : ℕ
  pub sq_thread_idle : ℕ
  pub features : ℕ
  pub sq_off : Offsets
  pub cq_off : Offsets

abbrev no_offsets : Offsets
no_offsets = record { head = 0; tail = 0; ring_mask = 0; ring_entries = 0; flags = 0; entries = 0 }

-- All zero after `memset`.
abbrev zero_params : Params
zero_params = record {
  sq_entries = 0;
  cq_entries = 0;
  flags = 0;
  sq_thread_cpu = 0;
  sq_thread_idle = 0;
  features = 0;
  sq_off = no_offsets;
  cq_off = no_offsets;
}

abbrev pub setup_sqpoll : ℕ
setup_sqpoll = 2

abbrev pub setup_sq_aff : ℕ
setup_sq_aff = 4

abbrev pub setup_coop_taskrun : ℕ
setup_coop_taskrun = 256

abbrev pub setup_single_issuer : ℕ
setup_single_issuer = 4096

abbrev pub feat_single_mmap : ℕ
feat_single_mmap = 1

abbrev pub feat_sqpoll_nonfixed : ℕ
feat_sqpoll_nonfixed = 128

abbrev pub kernel_thread_idle_sleep_time_ms : ℕ
kernel_thread_idle_sleep_time_ms = 3100

abbrev pub kernel_thread_cpu_bind : ℕ
kernel_thread_cpu_bind = 0

-- Whether a flag is set.
abbrev pub has_flag : ℕ → ℕ → Bool
has_flag flags flag = not (bit_and flags flag == 0)

unfoldable pub iou_config_params : Bool → Params
iou_config_params use_kernel_pooling =
    let p = record zero_params { flags = bit_or 0 setup_single_issuer } in
    if not use_kernel_pooling
    then record p { flags = bit_or p.flags setup_coop_taskrun }
    else record p {
      flags = bit_or (bit_or p.flags setup_sqpoll) setup_sq_aff;
      sq_thread_idle = kernel_thread_idle_sleep_time_ms;
      sq_thread_cpu = kernel_thread_cpu_bind;
    }

unfoldable pub iou_check_features : Params → Bool → Run (Unit {0})
iou_check_features p use_kernel_pooling =
    if not use_kernel_pooling
    then ok tt
    else (if not (has_flag p.features feat_sqpoll_nonfixed) then exited else ok tt)

-- The pointers into a ring.
pub record Ring : Type 0 where
  pub head : Ptr
  pub tail : Ptr
  pub ring_mask : Ptr
  pub ring_entries : Ptr
  pub flags : Ptr
  pub entries : Ptr

abbrev ring_at : Ptr → Offsets → Ring
ring_at base off = record {
  head = base + off.head;
  tail = base + off.tail;
  ring_mask = base + off.ring_mask;
  ring_entries = base + off.ring_entries;
  flags = base + off.flags;
  entries = base + off.entries;
}

-- `struct iou` as far as it is the mapping: `cq_ring` has no pointer to flags, and `entries` is the
-- `array` of the one ring and the `cqes` of the other.
pub record Mapped : Type 0 where
  pub ring_fd : ℤ
  pub ring_size : ℕ
  pub configuration : Params
  pub sq_ring : Ring
  pub sqes : Ptr
  pub cq_ring : Ring
  pub sq_ptr_mapped : Ptr
  pub sq_mapped_size : ℕ
  pub cq_ptr_mapped : Ptr
  pub cq_mapped_size : ℕ
  pub sqe_ptr_mapped : Ptr
  pub sqe_mapped_size : ℕ

-- A region of memory: an address and a size.
abbrev pub Region : Type 0
Region = Ptr × ℕ

-- What `mmap` answers in the order of the calls; `none` is `MAP_FAILED`.
pub record MmapAnswer : Type 0 where
  pub sq : Option Ptr
  pub cq : Option Ptr
  pub sqe : Option Ptr

-- `assert_zero(p == MAP_FAILED, ...)`
abbrev pub mapped_at : Option Ptr → Run Ptr
mapped_at none = exited
mapped_at (some p) = ok p

-- The sizes asked for the two rings: `sizeof(unsigned int)` and `sizeof(struct io_uring_cqe)` for an
-- entry. With one mapping for both, the larger of the two.
abbrev pub sring_size : Params → ℕ
sring_size p = ((p.sq_off).entries + p.sq_entries * 4) % 2 ^ 32

abbrev pub cring_size : Params → ℕ
cring_size p = ((p.cq_off).entries + p.cq_entries * 16) % 2 ^ 32

abbrev pub shared_size : Params → ℕ
shared_size p = if ltb (sring_size p) (cring_size p) then cring_size p else sring_size p

-- `sizeof(struct io_uring_sqe)` for an entry.
abbrev pub sqes_size : Params → ℕ
sqes_size p = p.sq_entries * 64 % 2 ^ 32

-- `struct iou` with every ring mapped; `cq_own` is the completion ring's own region, if it has one.
unfoldable pub mapped : ℤ → Params → ℕ → Region → Ptr → Region → Ptr → Mapped
mapped ring_fd p ring_size (sq, sq_size) cq cq_own sqe = record {
  ring_fd = ring_fd;
  ring_size = ring_size;
  configuration = p;
  sq_ring = ring_at sq p.sq_off;
  sqes = sqe;
  cq_ring = ring_at cq p.cq_off;
  sq_ptr_mapped = sq;
  sq_mapped_size = sq_size;
  cq_ptr_mapped = cq_own.0;
  cq_mapped_size = cq_own.1;
  sqe_ptr_mapped = sqe;
  sqe_mapped_size = sqes_size p;
}

-- The structure, and the regions that were mapped, in order.
unfoldable pub iou_mmap_rings : ℤ → Params → ℕ → MmapAnswer → Run (Mapped × List Region)
unfolding mapped
iou_mmap_rings ring_fd p ring_size a =
    if has_flag p.features feat_single_mmap
    then (do
      sq ← mapped_at a.sq
      sqe ← mapped_at a.sqe
      ok (
        mapped ring_fd p ring_size (sq, shared_size p) sq (null, 0) sqe,
        (sq, shared_size p) ∷ (sqe, sqes_size p) ∷ [],
      ))
    else (do
      sq ← mapped_at a.sq
      cq ← mapped_at a.cq
      sqe ← mapped_at a.sqe
      ok (
        mapped ring_fd p ring_size (sq, sring_size p) cq (cq, cring_size p) sqe,
        (sq, sring_size p) ∷ (cq, cring_size p) ∷ (sqe, sqes_size p) ∷ [],
      ))

-- `io_uring_setup` answers a descriptor or a negative error, and fills in the parameters.
unfoldable pub iou_create :
    ℕ → Bool → (setup : Params → ℤ × Params) → MmapAnswer → Run (Mapped × List Region)
unfolding iou_config_params iou_check_features iou_mmap_rings
iou_create ring_size use_kernel_pooling setup a =
    let (ring_fd, p) = setup (iou_config_params use_kernel_pooling) in
    if is_negative ring_fd
    then exited
    else (iou_check_features p use_kernel_pooling >> iou_mmap_rings ring_fd p ring_size a)

-- What `munmap` and `close` answer in the order of the calls.
pub record FreeAnswer : Type 0 where
  pub sq : ℤ
  pub cq : ℤ
  pub sqe : ℤ
  pub close : ℤ

-- The regions that are unmapped, in order, and the descriptor that is closed; the structure is
-- cleared after that.
unfoldable pub iou_free : Mapped → FreeAnswer → Run (List Region × ℤ)
iou_free iou a = do
  assert_zero a.sq
  cq ←
      (if iou.cq_ptr_mapped == null
        then ok []
        else (assert_zero a.cq >> ok ((iou.cq_ptr_mapped, iou.cq_mapped_size) ∷ [])))
  assert_zero a.sqe
  assert_zero a.close
  ok (
    (iou.sq_ptr_mapped, iou.sq_mapped_size)
        ∷ (cq ++ ((iou.sqe_ptr_mapped, iou.sqe_mapped_size) ∷ [])),
    iou.ring_fd,
  )
