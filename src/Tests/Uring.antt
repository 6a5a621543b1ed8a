-- ===== src/Tests/Uring.antt =====
-- Rings of four slots whose counters are about to wrap.
pub mod Busy
pub mod Lists
pub mod Loops
pub mod Measured
pub mod Rings
pub mod Servers
pub mod Turns
pub mod Whole
use linux_modern_io_multiple.Prelude.{
  ℕ, ◌-◌, ◌^◌, ◌≡◌, ◌≢◌, refl, arith, List, [], ◌∷◌, ◌++◌, length, true, false, ◌==◌, if◌then◌else◌,
  some, none,
}
use linux_modern_io_multiple.Prelude.Int.{ℤ, pos, negsuc}
use linux_modern_io_multiple.Prelude.Run.{Run, ok, exited}
use linux_modern_io_multiple.Links.{Ptr, null, node, Ends, ends}
use linux_modern_io_multiple.Links.Chain.{Cells, IsList, SameOutside}
use linux_modern_io_multiple.Uring.Tracker.{TrackerHeap, mem_t_push_back, mem_t_remove_node}
use linux_modern_io_multiple.Uring.Tracker.Lists.{mem_t_push_back-append, mem_t_remove_node-rest}
use linux_modern_io_multiple.Uring.Ring.{
  Iou, Sqe, Cqe, IouOp, OpType, accepted_connection, close_connection, recv_from_client,
  timer_expired, info_timer, ClientCon, zero_sqe, ebusy, iou_get_cqe, Opcode, Addr,
}
use linux_modern_io_multiple.Uring.Ring.Masking.{IsRing}
use linux_modern_io_multiple.Uring.Ring.Submission.{IsQueue, iou_config_and_submit-full}
use linux_modern_io_multiple.Uring.Ring.Completion.{consumed, IsPosted, iou_get_cqe-some}
use linux_modern_io_multiple.Uring.Server.Echo.{recv_sqe, cqe_of}

abbrev pub four_slots : IsRing 4 3
four_slots = record { width = 2; small = omega arith; size_eq = refl; mask_eq = refl }

abbrev pub con : ℕ → ClientCon
con n = record { fd = pos n; busy = true; buf_send_len = 3; buf = 1 ∷ 2 ∷ 3 ∷ [] }

abbrev pub waiting : Sqe
waiting = recv_sqe 3 300 (con 7)

abbrev pub answer : ℕ → Cqe
answer n = cqe_of 300 (pos n)

abbrev pub ring : ℕ → List Sqe → Iou
ring tail sqes = record {
  ring_size = 4;
  sq_head = 2 ^ 32 - 1;
  sq_tail = tail;
  sq_mask = 3;
  sq_array = 0 ∷ 1 ∷ 2 ∷ 3 ∷ [];
  sqes = sqes;
  cq_head = 2 ^ 32 - 1;
  cq_tail = 1;
  cq_mask = 3;
  cqes = answer 5 ∷ answer 0 ∷ answer 0 ∷ answer 3 ∷ [];
}

-- One SQE is queued, in the last slot.
abbrev pub one_queued : Iou
one_queued = ring 0 (zero_sqe ∷ zero_sqe ∷ zero_sqe ∷ waiting ∷ [])

abbrev pub all_queued : Iou
all_queued = ring 3 (waiting ∷ waiting ∷ waiting ∷ waiting ∷ [])

pub one_queued-IsQueue : IsQueue one_queued (waiting ∷ [])
one_queued-IsQueue = record {
  ring = four_slots;
  array = refl;
  sqes = refl;
  head = omega arith;
  tail = refl;
  room = omega arith;
  queued = (refl, refl, tt);
}

abbrev pub four : List Sqe
four = waiting ∷ waiting ∷ waiting ∷ waiting ∷ []

pub all_queued-IsQueue : IsQueue all_queued four
all_queued-IsQueue = record {
  ring = four_slots;
  array = refl;
  sqes = refl;
  head = omega arith;
  tail = refl;
  room = omega arith;
  queued = (refl, refl, (refl, refl, (refl, refl, (refl, refl, tt))));
}

one_queued-IsPosted : IsPosted one_queued (answer 3 ∷ answer 5 ∷ [])
one_queued-IsPosted = record {
  size = 4;
  ring = four_slots;
  head = omega arith;
  tail = refl;
  cqes = refl;
  room = omega arith;
  posted = (refl, (refl, tt));
}

iou_get_cqe-some_example :
    (iou_get_cqe one_queued ≡ ok (some (answer 3), consumed one_queued))
    × IsPosted (consumed one_queued) (answer 5 ∷ [])
iou_get_cqe-some_example =
    iou_get_cqe-some one_queued (answer 3) (answer 5 ∷ []) one_queued-IsPosted
