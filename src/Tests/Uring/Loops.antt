-- ===== src/Tests/Uring/Loops.antt =====
-- The loop of the io_uring server on a ring of four SQEs and eight CQEs.
use linux_modern_io_multiple.Prelude.{
  suc, ◌+◌, ◌-◌, ◌^◌, ◌≡◌, ◌⊎◌, inr, refl, arith, List, [], ◌∷◌, length, ◌==◌, if◌then◌else◌, some,
  none,
}
use linux_modern_io_multiple.Prelude.Int.{pos}
use linux_modern_io_multiple.Prelude.Run.{ok, exited}
use linux_modern_io_multiple.Links.{Ptr, null, ends}
use linux_modern_io_multiple.Links.Chain.{Cells, IsList}
use linux_modern_io_multiple.Uring.Ring.{
  Iou, IouOp, Cqe, Sqe, zero_sqe, info_timer, accepted_connection, config_sqe,
  iou_config_and_submit, iou_acquire_sqe, submit_acquired, iou_submit_sqe, iou_get_cqe,
}
use linux_modern_io_multiple.Uring.Ring.Completion.{IsPosted, posts}
use linux_modern_io_multiple.Uring.Ring.Kernel.{took}
use linux_modern_io_multiple.Uring.Ring.Masking.{IsRing}
use linux_modern_io_multiple.Uring.Ring.Submission.{IsQueue}
use linux_modern_io_multiple.Uring.Setup.Entering.{iou_enter_or_wake}
use linux_modern_io_multiple.Uring.Server.{
  Server, write_op, store_op, load_op, submit, create_accept_sqe,
}
use linux_modern_io_multiple.Uring.Server.Clients.{accept_op, accept_sqe}
use linux_modern_io_multiple.Uring.Server.Echo.{cqe_of}
use linux_modern_io_multiple.Uring.Loop.{
  Loop, Answers, World, Step, turned, takes, completes, Reaches, start, next, start_loop, turn,
  react, entered, asked_by,
}
use linux_modern_io_multiple.Uring.Loop.Pending.{hit_zero}
use linux_modern_io_multiple.Uring.Loop.Progress.{turn-waits}
use linux_modern_io_multiple.Uring.Loop.Reach.{IsServing, Turned}
use linux_modern_io_multiple.Uring.Loop.Steps.{Reaches-IsServing, service_loop-safe}
use linux_modern_io_multiple.Tests.Uring.{four_slots}

abbrev pub eight_slots : IsRing 8 7
eight_slots = record { width = 3; small = omega arith; size_eq = refl; mask_eq = refl }

abbrev pub nothing : Cqe
nothing = cqe_of 0 (pos 0)

-- Both rings are empty, and the submission counters are about to wrap.
abbrev pub empty : Iou
empty = record {
  ring_size = 4;
  sq_head = 2 ^ 32 - 1;
  sq_tail = 2 ^ 32 - 1;
  sq_mask = 3;
  sq_array = 0 ∷ 0 ∷ 0 ∷ 0 ∷ [];
  sqes = zero_sqe ∷ zero_sqe ∷ zero_sqe ∷ zero_sqe ∷ [];
  cq_head = 7;
  cq_tail = 7;
  cq_mask = 7;
  cqes = nothing ∷ nothing ∷ nothing ∷ nothing ∷ nothing ∷ nothing ∷ nothing ∷ nothing ∷ [];
}

pub empty-IsQueue : IsQueue empty []
empty-IsQueue = record {
  ring = four_slots;
  array = refl;
  sqes = refl;
  head = omega arith;
  tail = refl;
  room = omega arith;
  queued = tt;
}

pub empty-IsPosted : IsPosted empty []
empty-IsPosted = record {
  size = 8;
  ring = eight_slots;
  head = omega arith;
  tail = refl;
  cqes = refl;
  room = omega arith;
  posted = tt;
}

-- The accept request is on the stack, at 100.
abbrev stack_op : IouOp
stack_op = record { op = accepted_connection; info = info_timer 0 0; mem_tracker = null }

abbrev before : Server
before = record {
  iou = empty;
  tracker = ends null null;
  nodes = λ p. none;
  ops = λ p. if p == 100 then some stack_op else none;
  closed = [];
}

before-IsList : IsList before.tracker before.nodes []
before-IsList = record { head = refl; tail = refl; chain = tt }

-- The accept is queued.
abbrev pub queued : Iou
queued = record empty {
  sq_array = 0 ∷ 0 ∷ 0 ∷ 3 ∷ [];
  sqes = zero_sqe ∷ zero_sqe ∷ zero_sqe ∷ accept_sqe 100 (pos 3) ∷ [];
  sq_tail = 0;
}

abbrev serving : Iou → Server
serving iou = record before {
  iou = iou;
  ops = write_op before.ops 100 (some (accept_op (pos 3) 16));
}

abbrev begun : Loop
begun = record { server = serving queued; to_submit = 1 }

started : start_loop 3 before 100 (pos 3) ≡ ok begun
unfolding start_loop create_accept_sqe load_op store_op submit iou_config_and_submit iou_acquire_sqe
    submit_acquired config_sqe iou_submit_sqe write_op
started = refl

abbrev pub given : Answers
given = record { sq_flags = 0; rc = pos 1; allocated = record { tracker_ptr = 30; op_ptr = 400 } }

-- The loop enters the kernel, which takes the accept and completes it with descriptor 8.
abbrev waiting_world : World
waiting_world = record {
  loop = record { server = serving queued; to_submit = 0 };
  asked = 1;
  flight = [];
}

abbrev taken_world : World
taken_world = record {
  loop = record { server = serving (record queued { sq_head = 0 }); to_submit = 0 };
  asked = 0;
  flight = 100 ∷ [];
}

abbrev pub accepted : Iou
accepted = record queued {
  sq_head = 0;
  cq_tail = 8;
  cqes =
      nothing ∷ nothing ∷ nothing ∷ nothing ∷ nothing ∷ nothing ∷ nothing ∷ cqe_of 100 (pos 8) ∷ [];
}

abbrev done_world : World
done_world = record {
  loop = record { server = serving accepted; to_submit = 0 };
  asked = 0;
  flight = [];
}

waits : Step 3 0 (entered begun) waiting_world
unfolding turn react iou_get_cqe iou_enter_or_wake write_op
waits =
    turned (entered begun) given (record { to_submit = 1; min_complete = 1; flags = 1 } ∷ [])
      (record begun { to_submit = 0 }) refl refl refl

takes_one : Step 3 0 waiting_world taken_world
unfolding took
takes_one =
    takes waiting_world 3 (accept_sqe 100 (pos 3)) (omega arith) refl refl (inr (omega arith))

completes_one : Step 3 0 taken_world done_world
unfolding posts
completes_one = completes taken_world [] [] 100 (pos 8) refl (omega arith)

reached : Reaches 3 0 (entered begun) done_world
reached = next (next (next start waits) takes_one) completes_one

service_loop-safe_example :
    (turn 3 0 done_world.loop given ≡ exited)
    ⊎ Turned 0 100 (pos 3) done_world (turn 3 0 done_world.loop given)
unfolding write_op
service_loop-safe_example =
    service_loop-safe 3 0 100 (pos 3) before stack_op begun done_world given empty-IsQueue
      empty-IsPosted before-IsList (omega arith) refl refl (λ q other. ground arith) (λ q. refl)
      started reached refl refl

queued-IsQueue : IsQueue queued (accept_sqe 100 (pos 3) ∷ [])
queued-IsQueue = record {
  ring = four_slots;
  array = refl;
  sqes = refl;
  head = omega arith;
  tail = refl;
  room = omega arith;
  queued = (refl, refl, tt);
}

begun-IsServing : IsServing 0 100 (pos 3) (entered begun)
unfolding write_op
begun-IsServing = record {
  sqes = accept_sqe 100 (pos 3) ∷ [];
  cqes = [];
  cells = [];
  alive = record {
    queue = queued-IsQueue;
    posted = record {
      size = 8;
      ring = eight_slots;
      head = omega arith;
      tail = refl;
      cqes = refl;
      room = omega arith;
      posted = tt;
    };
    tracked = before-IsList;
    clients = tt;
    nonnull = omega arith;
    addrlen = 16;
    accepting = refl;
    pending = λ p. omega arith;
    total = refl;
    ops_owned = λ p free. ground (arith, hit_zero p 100 (omega arith));
    nodes_owned = λ t out. refl;
  };
  counted = λ off. refl;
}

Reaches-IsServing_example : IsServing 0 100 (pos 3) done_world
Reaches-IsServing_example = Reaches-IsServing 3 0 100 (pos 3) begun-IsServing reached

-- The first turn of the loop.
turn-waits_example :
    (xs : List Sqe) × (cs : Cells Ptr) × IsQueue queued xs
    × IsList (ends null null) before.nodes cs
    × (asked_by (record { to_submit = 1; min_complete = 1; flags = 1 } ∷ []) ≡ length xs)
    × (length xs + 0 ≡ suc (length cs))
    × ((record begun { to_submit = 0 }).to_submit ≡ 0)
unfolding turn react iou_get_cqe iou_enter_or_wake write_op
turn-waits_example =
    turn-waits 3 0 100 (pos 3) (entered begun) given
      (record { to_submit = 1; min_complete = 1; flags = 1 } ∷ []) (record begun { to_submit = 0 })
      refl begun-IsServing refl refl refl
