-- ===== src/Tests/Uring/Rings.antt =====
-- The rings of four entries as a kernel might describe them.
use linux_modern_io_multiple.Prelude.{
  ◌*◌, ◌≡◌, ◌≢◌, refl, arith, ◌⊎◌, true, false, List, [], ◌∷◌, some,
}
use linux_modern_io_multiple.Prelude.Int.{ℤ, pos}
use linux_modern_io_multiple.Prelude.Run.{ok}
use linux_modern_io_multiple.Time.{is_negative}
use linux_modern_io_multiple.Links.{null}
use linux_modern_io_multiple.Uring.Setup.{
  Params, Offsets, Mapped, Region, MmapAnswer, mapped, iou_mmap_rings, iou_free, iou_create,
  iou_config_params, iou_check_features, has_flag, feat_sqpoll_nonfixed,
}
use linux_modern_io_multiple.Uring.Setup.Bounds.{Inside, iou_mmap_rings_bounds}
use linux_modern_io_multiple.Uring.Setup.Mapping.{freed, iou_free-iou_create}

abbrev sq_offsets : Offsets
sq_offsets = record {
  head = 0;
  tail = 64;
  ring_mask = 256;
  ring_entries = 264;
  flags = 276;
  entries = 448;
}

abbrev cq_offsets : Offsets
cq_offsets = record {
  head = 128;
  tail = 192;
  ring_mask = 260;
  ring_entries = 268;
  flags = 280;
  entries = 320;
}

-- The kernel has a mapping for each ring.
abbrev params : Params
params = record {
  sq_entries = 4;
  cq_entries = 8;
  flags = 0;
  sq_thread_cpu = 0;
  sq_thread_idle = 0;
  features = 128;
  sq_off = sq_offsets;
  cq_off = cq_offsets;
}

abbrev pub answers : MmapAnswer
answers = record { sq = some 4096; cq = some 8192; sqe = some 12288 }

abbrev pub rings : Mapped
rings = mapped (pos 5) params 4 (4096, 464) 8192 (8192, 448) 12288

abbrev pub regions : List Region
regions = (4096, 464) ∷ (8192, 448) ∷ (12288, 256) ∷ []

pub answered : answers.cq ≢ some null
answered e = cc

-- The kernel's thread polls the rings.
abbrev pub polled : Params → ℤ × Params
polled p = (pos 5, params)

iou_free-iou_create_example :
    (iou_free rings freed ≡ ok (regions, pos 5))
    × (is_negative (pos 5) ≡ false)
    × ((true ≡ false) ⊎ (has_flag 128 feat_sqpoll_nonfixed ≡ true))
unfolding iou_create iou_config_params iou_check_features iou_mmap_rings
iou_free-iou_create_example = iou_free-iou_create 4 true polled answers rings regions refl answered

iou_mmap_rings_bounds_example :
    Inside (rings.sq_ring).entries (4 * 4) regions
    × Inside (rings.cq_ring).entries (8 * 16) regions
    × Inside rings.sqes (4 * 64) regions
iou_mmap_rings_bounds_example =
    iou_mmap_rings_bounds (pos 5) params 4 answers rings regions (unfold iou_mmap_rings in refl)
      (omega arith) (omega arith) (omega arith)
