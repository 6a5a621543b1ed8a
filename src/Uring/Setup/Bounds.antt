-- ===== src/Uring/Setup/Bounds.antt =====
-- The arrays of the rings lie in what is mapped.
use linux_modern_io_multiple.Prelude.{
  ℕ, ◌+◌, ◌*◌, ◌^◌, ◌<◌, ◌≤◌, ◌≡◌, ◌⊎◌, inl, inr, arith, List, [], ◌∷◌,
}
use linux_modern_io_multiple.Prelude.Int.{ℤ}
use linux_modern_io_multiple.Prelude.Run.{ok}
use linux_modern_io_multiple.Links.{Ptr}
use linux_modern_io_multiple.Uring.Setup.{
  Params, Mapped, Region, MmapAnswer, mapped, shared_size, sring_size, cring_size, iou_mmap_rings,
}
use linux_modern_io_multiple.Uring.Setup.Mapping.{Outcome, shared, separate, iou_mmap_rings-Outcome}

-- The bytes from `p` on, `len` of them, lie in one of the regions.
abbrev pub Inside : Ptr → ℕ → List Region → Type 0
Inside p len [] = ⊥
Inside p len ((base, size) ∷ regions) =
    ((base ≤ p) × (p + len ≤ base + size)) ⊎ Inside p len regions

shared-ge : (p : Params) → (sring_size p ≤ shared_size p) × (cring_size p ≤ shared_size p)
shared-ge p = ground arith

inside :
    (ring_fd : ℤ) (p : Params) (ring_size : ℕ) (a : MmapAnswer) {m : Mapped} {regions : List Region}
    → Outcome ring_fd p ring_size a m regions
    → (p.sq_off).entries + p.sq_entries * 4 < 2 ^ 32
    → (p.cq_off).entries + p.cq_entries * 16 < 2 ^ 32
    → p.sq_entries * 64 < 2 ^ 32
    → Inside (m.sq_ring).entries (p.sq_entries * 4) regions
      × Inside (m.cq_ring).entries (p.cq_entries * 16) regions
      × Inside m.sqes (p.sq_entries * 64) regions
unfolding mapped
inside ring_fd p ring_size a (shared sq sqe e f) h k l =
    let (s, c) = shared-ge p in
    (
      inl (omega arith, omega arith),
      inl (omega arith, omega arith),
      inr (inl (omega arith, omega arith)),
    )
inside ring_fd p ring_size a (separate sq cq sqe e g f) h k l = (
  inl (omega arith, omega arith),
  inr (inl (omega arith, omega arith)),
  inr (inr (inl (omega arith, omega arith))),
)

-- The index array, the CQEs and the SQEs lie in the regions that `iou_mmap_rings` maps, all of them:
-- no access to an entry leaves the mapping. The sizes fit an `unsigned int`.
pub iou_mmap_rings_bounds :
    (ring_fd : ℤ) (p : Params) (ring_size : ℕ) (a : MmapAnswer) (m : Mapped) (regions : List Region)
    → iou_mmap_rings ring_fd p ring_size a ≡ ok (m, regions)
    → (p.sq_off).entries + p.sq_entries * 4 < 2 ^ 32
    → (p.cq_off).entries + p.cq_entries * 16 < 2 ^ 32
    → p.sq_entries * 64 < 2 ^ 32
    → Inside (m.sq_ring).entries (p.sq_entries * 4) regions
      × Inside (m.cq_ring).entries (p.cq_entries * 16) regions
      × Inside m.sqes (p.sq_entries * 64) regions
iou_mmap_rings_bounds ring_fd p ring_size a m regions ran =
    inside ring_fd p ring_size a (iou_mmap_rings-Outcome ring_fd p ring_size a ran)
