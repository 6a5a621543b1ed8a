-- ===== src/Uring/Setup/Mapping.antt =====
-- What is mapped is given back.
use linux_modern_io_multiple.Prelude.{
  ℕ, ◌≡◌, ◌≢◌, refl, arith, Bool, true, false, ◌⊎◌, List, [], ◌∷◌, Option, some, none, ◌==◌,
  Bool-cases, inl, inr, subst,
}
use linux_modern_io_multiple.Prelude.Int.{ℤ, pos}
use linux_modern_io_multiple.Prelude.Run.{ok, >>=-returned}
use linux_modern_io_multiple.Time.{is_negative}
use linux_modern_io_multiple.Links.{Ptr, null}
use linux_modern_io_multiple.Uring.Setup.{
  Params, Mapped, Region, MmapAnswer, FreeAnswer, mapped, mapped_at, has_flag, feat_single_mmap,
  shared_size, sring_size, cring_size, sqes_size, iou_mmap_rings, iou_free, iou_create,
  iou_config_params, iou_check_features, feat_sqpoll_nonfixed,
}

-- Every `munmap` and the `close` succeed.
abbrev pub freed : FreeAnswer
freed = record { sq = pos 0; cq = pos 0; sqe = pos 0; close = pos 0 }

-- The two ways that the mapping can come out.
pub data Outcome (ring_fd : ℤ) (p : Params) (ring_size : ℕ) (a : MmapAnswer)
    : Mapped → List Region → Type 0 where
  shared :
      (sq sqe : Ptr)
      → a.sq ≡ some sq
      → a.sqe ≡ some sqe
      → Outcome ring_fd p ring_size a
          (mapped ring_fd p ring_size (sq, shared_size p) sq (null, 0) sqe)
          ((sq, shared_size p) ∷ (sqe, sqes_size p) ∷ [])
  separate :
      (sq cq sqe : Ptr)
      → a.sq ≡ some sq
      → a.cq ≡ some cq
      → a.sqe ≡ some sqe
      → Outcome ring_fd p ring_size a
          (mapped ring_fd p ring_size (sq, sring_size p) cq (cq, cring_size p) sqe)
          ((sq, sring_size p) ∷ (cq, cring_size p) ∷ (sqe, sqes_size p) ∷ [])

mapped_at-ok : (o : Option Ptr) {p : Ptr} → mapped_at o ≡ ok p → o ≡ some p
mapped_at-ok none e = cc
mapped_at-ok (some q) e = cc

pub iou_mmap_rings-Outcome :
    (ring_fd : ℤ) (p : Params) (ring_size : ℕ) (a : MmapAnswer) {m : Mapped} {regions : List Region}
    → iou_mmap_rings ring_fd p ring_size a ≡ ok (m, regions)
    → Outcome ring_fd p ring_size a m regions
unfolding iou_mmap_rings
iou_mmap_rings-Outcome ring_fd p ring_size a {m} {regions} ran =
    elim (Bool-cases (has_flag p.features feat_single_mmap)) [
      | inl one ↦
          let (sq, e, more) = >>=-returned (mapped_at a.sq) _ (simp one at ran) in
          let (sqe, f, done) = >>=-returned (mapped_at a.sqe) _ more in
          let is_m : mapped ring_fd p ring_size (sq, shared_size p) sq (null, 0) sqe ≡ m = cc in
          let is_r : (sq, shared_size p) ∷ (sqe, sqes_size p) ∷ [] ≡ regions = cc in
          subst (λ t. Outcome ring_fd p ring_size a t regions) is_m
            (subst
              (λ t.
                Outcome ring_fd p ring_size a
                  (mapped ring_fd p ring_size (sq, shared_size p) sq (null, 0) sqe) t)
              is_r (shared sq sqe (mapped_at-ok a.sq e) (mapped_at-ok a.sqe f)))
      | inr two ↦
          let (sq, e, more) = >>=-returned (mapped_at a.sq) _ (simp two at ran) in
          let (cq, g, more) = >>=-returned (mapped_at a.cq) _ more in
          let (sqe, f, done) = >>=-returned (mapped_at a.sqe) _ more in
          let is_m : mapped ring_fd p ring_size (sq, sring_size p) cq (cq, cring_size p) sqe ≡ m =
            cc in
          let is_r : (sq, sring_size p) ∷ (cq, cring_size p) ∷ (sqe, sqes_size p) ∷ [] ≡ regions =
            cc in
          subst (λ t. Outcome ring_fd p ring_size a t regions) is_m
            (subst
              (λ t.
                Outcome ring_fd p ring_size a
                  (mapped ring_fd p ring_size (sq, sring_size p) cq (cq, cring_size p) sqe) t)
              is_r
              (separate sq cq sqe (mapped_at-ok a.sq e) (mapped_at-ok a.cq g)
                (mapped_at-ok a.sqe f)))
    ]

given_back :
    (ring_fd : ℤ) (p : Params) (ring_size : ℕ) (a : MmapAnswer) {m : Mapped} {regions : List Region}
    → Outcome ring_fd p ring_size a m regions
    → a.cq ≢ some null
    → iou_free m freed ≡ ok (regions, ring_fd)
unfolding iou_free mapped
given_back ring_fd p ring_size a (shared sq sqe e f) own = refl
given_back ring_fd p ring_size a (separate sq cq sqe e g f) own = simp cq_own
  where
    cq_own : (cq == null) ≡ false
    cq_own = ground (arith, own)

-- `iou_free` gives back what `iou_mmap_rings` mapped: each region once, with the size it was mapped
-- with, and the ring's descriptor, whether or not the kernel shares one mapping between the two
-- rings. No call fails, and `mmap` does not answer with address 0.
pub iou_free-iou_mmap_rings :
    (ring_fd : ℤ) (p : Params) (ring_size : ℕ) (a : MmapAnswer) (m : Mapped) (regions : List Region)
    → iou_mmap_rings ring_fd p ring_size a ≡ ok (m, regions)
    → a.cq ≢ some null
    → iou_free m freed ≡ ok (regions, ring_fd)
iou_free-iou_mmap_rings ring_fd p ring_size a m regions ran own =
    given_back ring_fd p ring_size a (iou_mmap_rings-Outcome ring_fd p ring_size a ran) own

checked-feature :
    (p : Params) (polls : Bool) {r : Unit {0}}
    → iou_check_features p polls ≡ ok r
    → (polls ≡ false) ⊎ (has_flag p.features feat_sqpoll_nonfixed ≡ true)
unfolding iou_check_features
checked-feature p false e = inl refl
checked-feature p true e = elim (Bool-cases (has_flag p.features feat_sqpoll_nonfixed)) [
  | inl there ↦ inr there
  | inr missing ↦ let no = simp missing at e in cc
]

-- Rings that `iou_create` returned are open on the descriptor of the kernel's answer, which is no
-- error; where the kernel's thread is to poll them, the kernel has the feature that the server needs
-- for that. `iou_free` then gives back every region that was mapped, each once, with the size it was
-- mapped with, and that descriptor. No call fails, and `mmap` does not answer with address 0.
pub iou_free-iou_create :
    (ring_size : ℕ) (use_kernel_pooling : Bool) (setup : Params → ℤ × Params) (a : MmapAnswer)
    (m : Mapped) (regions : List Region)
    → iou_create ring_size use_kernel_pooling setup a ≡ ok (m, regions)
    → a.cq ≢ some null
    → (iou_free m freed ≡ ok (regions, (setup (iou_config_params use_kernel_pooling)).0))
      × (is_negative (setup (iou_config_params use_kernel_pooling)).0 ≡ false)
      × ((use_kernel_pooling ≡ false)
          ⊎ (has_flag
                ((setup (iou_config_params use_kernel_pooling)).1).features
                feat_sqpoll_nonfixed
              ≡ true))
unfolding iou_create
iou_free-iou_create ring_size polls setup a m regions ran own =
    let (ring_fd, p) = setup (iou_config_params polls) in
    elim (Bool-cases (is_negative ring_fd)) [
      | inl bad ↦ let no = simp bad at ran in cc
      | inr good ↦
          let (_, checked, more) = >>=-returned (iou_check_features p polls) _ (simp good at ran) in
          (
            iou_free-iou_mmap_rings ring_fd p ring_size a m regions more own,
            good,
            checked-feature p polls checked,
          )
    ]
