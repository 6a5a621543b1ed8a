-- ===== src/Uring/Ring/Kernel.antt =====
-- The kernel's side of the submission ring.
use linux_modern_io_multiple.Prelude.{
  ℕ, suc, ◌+◌, ◌%◌, ◌^◌, ◌≡◌, sym, ap, ◌∙◌, arith, List, [], ◌∷◌, some, get_elem?, bit_and,
}
use linux_modern_io_multiple.Uring.Ring.{Iou, Sqe}
use linux_modern_io_multiple.Uring.Ring.Masking.{position}
use linux_modern_io_multiple.Uring.Ring.Submission.{Queued, IsQueue}

-- The kernel takes the oldest SQE by moving the head.
unfoldable pub took : Iou → Iou
took iou = record iou { sq_head = (iou.sq_head + 1) % 2 ^ 32 }

Queued-shift :
    (head mask : ℕ) (array : List ℕ) (sqes : List Sqe) (n : ℕ) (xs : List Sqe)
    → Queued head mask array sqes (suc n) xs
    → Queued ((head + 1) % 2 ^ 32) mask array sqes n xs
Queued-shift head mask array sqes n [] q = tt
Queued-shift head mask array sqes n (x ∷ xs) (a, e, q) =
    let same : position ((head + 1) % 2 ^ 32) n ≡ position head (suc n) = omega arith in
    (rw same a, rw same e, Queued-shift head mask array sqes (suc n) xs q)

-- The SQE that the kernel takes is the one in front, and the others stay queued.
pub took-IsQueue :
    (iou : Iou) (x : Sqe) (xs : List Sqe)
    → IsQueue iou (x ∷ xs)
    → (get_elem? iou.sqes (bit_and iou.sq_head iou.sq_mask) ≡ some x) × IsQueue (took iou) xs
unfolding took
took-IsQueue iou x xs q =
    let here : position iou.sq_head 0 ≡ iou.sq_head = omega (arith, q.head) in
    (
      ap (λ t. get_elem? iou.sqes (bit_and t iou.sq_mask)) (sym here) ∙ q.queued.1,
      record {
        ring = q.ring;
        array = q.array;
        sqes = q.sqes;
        head = omega arith;
        tail = omega (arith, q.tail);
        room = omega (arith, q.room);
        queued = Queued-shift iou.sq_head iou.sq_mask iou.sq_array iou.sqes 0 xs q.queued.2;
      },
    )
