-- ===== src/Uring/Loop/Reach.antt =====
-- What holds in every state that the loop and the kernel reach together.
use linux_modern_io_multiple.Prelude.{
  ℕ, ◌+◌, ◌≡◌, ◌∙◌, refl, sym, arith, List, [], ◌∷◌, ◌++◌, length, length-append, none, ◌⊎◌, inl,
  inr, Bool-cases, false, not, ◌||◌,
}
use mathlib.Core.Bool.{false≢true}
use linux_modern_io_multiple.Prelude.Int.{ℤ, eqb_ℤ}
use linux_modern_io_multiple.Prelude.Run.{Run, ok, exited}
use linux_modern_io_multiple.Time.{is_negative}
use linux_modern_io_multiple.Links.{Ptr}
use linux_modern_io_multiple.Links.Chain.{Cells}
use linux_modern_io_multiple.Uring.Ring.{Sqe, Cqe}
use linux_modern_io_multiple.Uring.Ring.Completion.{iou_get_cqe-none, iou_get_cqe-some, consumed}
use linux_modern_io_multiple.Uring.Ring.Submission.{IsQueue-same}
use linux_modern_io_multiple.Uring.Setup.{has_flag, setup_sqpoll}
use linux_modern_io_multiple.Uring.Setup.Entering.{
  EnterCall, iou_enter_or_wake, assert_entered, eintr, sq_need_wakeup, enter_sq_wakeup,
  enter_getevents,
}
use linux_modern_io_multiple.Uring.Loop.{Loop, Answers, World, iou_of, react, turn, asked_by}
use linux_modern_io_multiple.Uring.Loop.Serving.{service_cqe_events-Handled}
use linux_modern_io_multiple.Uring.Loop.Stored.{Alive}

-- The accept request is at `acc`, for the listening socket `ls`. Without the kernel's polling thread,
-- each SQE in the queue is counted once, by the loop or in what the kernel is asked to take.
pub record IsServing (setup_flags : ℕ) (acc : Ptr) (ls : ℤ) (w : World) : Type 0 where
  pub sqes : List Sqe
  pub cqes : List Cqe
  pub cells : Cells Ptr
  pub alive : Alive acc ls w.loop.server w.flight sqes cqes cells
  pub counted : has_flag setup_flags setup_sqpoll ≡ false → w.loop.to_submit + w.asked ≡ length sqes

assert_entered-cases : (rc : ℤ) → (assert_entered rc ≡ exited) ⊎ (assert_entered rc ≡ ok tt)
assert_entered-cases rc = elim (Bool-cases (not (is_negative rc) || eqb_ℤ rc eintr)) [
  | inl fine ↦ inr (simp (fine))
  | inr bad ↦ inl (simp (bad))
]

-- The kernel is asked for as many SQEs as are counted.
pub iou_enter_or_wake-asks :
    (setup_flags sq_flags to_submit : ℕ) (rc : ℤ)
    → (iou_enter_or_wake setup_flags sq_flags to_submit rc ≡ exited)
      ⊎ ((calls : List EnterCall) × (iou_enter_or_wake setup_flags sq_flags to_submit rc ≡ ok calls)
          × (has_flag setup_flags setup_sqpoll ≡ false → asked_by calls ≡ to_submit))
unfolding iou_enter_or_wake
iou_enter_or_wake-asks f g m rc = elim (Bool-cases (has_flag f setup_sqpoll)) [
  | inl polls ↦ elim (Bool-cases (has_flag g sq_need_wakeup)) [
    | inl asleep ↦ elim (assert_entered-cases rc) [
      | inl gone ↦ inl (simp (polls, asleep, gone))
      | inr entered ↦ inr (
        record { to_submit = 0; min_complete = 0; flags = enter_sq_wakeup } ∷ [],
        simp (polls, asleep, entered),
        λ e. absurd (false≢true (sym e ∙ polls)),
      )
    ]
    | inr awake ↦ inr ([], simp (polls, awake), λ e. absurd (false≢true (sym e ∙ polls)))
  ]
  | inr no_polls ↦ elim (assert_entered-cases rc) [
    | inl gone ↦ inl (simp (no_polls, gone))
    | inr entered ↦ inr (
      record { to_submit = m; min_complete = 1; flags = enter_getevents } ∷ [],
      simp (no_polls, entered),
      λ e. omega arith,
    )
  ]
]

-- A turn that returned, and the state after it.
pub record Turned (setup_flags : ℕ) (acc : Ptr) (ls : ℤ) (w : World)
    (run : Run (List EnterCall × Loop)) : Type 0 where
  pub calls : List EnterCall
  pub loop : Loop
  pub ran : run ≡ ok (calls, loop)
  pub serving :
      IsServing setup_flags acc ls
        (record { loop = loop; asked = w.asked + asked_by calls; flight = w.flight })

module _ (n setup_flags : ℕ) (acc : Ptr) (ls : ℤ) (w : World) (a : Answers) where
  -- With no CQE, the kernel is entered.
  idle-Turned :
      (xs : List Sqe) (cs : Cells Ptr)
      → Alive acc ls w.loop.server w.flight xs [] cs
      → (has_flag setup_flags setup_sqpoll ≡ false → w.loop.to_submit + w.asked ≡ length xs)
      → (turn n setup_flags w.loop a ≡ exited)
        ⊎ Turned setup_flags acc ls w (turn n setup_flags w.loop a)
  unfolding turn react
  idle-Turned xs cs alive counted =
      let empty = iou_get_cqe-none (iou_of w) alive.posted in
      elim (iou_enter_or_wake-asks setup_flags a.sq_flags w.loop.to_submit a.rc) [
        | inl gone ↦ inl (simp (empty, gone))
        | inr (calls, entered, asks) ↦ inr (record {
          calls = calls;
          loop = record w.loop { to_submit = 0 };
          ran = simp (empty, entered);
          serving = record {
            sqes = xs;
            cqes = [];
            cells = cs;
            alive = alive;
            counted = λ e. omega (arith, counted e, asks e);
          };
        })
      ]

  -- A CQE is served.
  busy-Turned :
      (xs : List Sqe) (x : Cqe) (ps : List Cqe) (cs : Cells Ptr)
      → Alive acc ls w.loop.server w.flight xs (x ∷ ps) cs
      → (has_flag setup_flags setup_sqpoll ≡ false → w.loop.to_submit + w.asked ≡ length xs)
      → w.loop.server.nodes a.allocated.tracker_ptr ≡ none
      → w.loop.server.ops a.allocated.op_ptr ≡ none
      → (turn n setup_flags w.loop a ≡ exited)
        ⊎ Turned setup_flags acc ls w (turn n setup_flags w.loop a)
  unfolding turn react
  busy-Turned xs x ps cs alive counted new_node new_op =
      let (got, posted) = iou_get_cqe-some (iou_of w) x ps alive.posted in
      let s = record w.loop.server { iou = consumed (iou_of w) } in
      let taken : Alive acc ls s (x.user_data ∷ w.flight) xs ps cs = record {
        queue = IsQueue-same s.iou (iou_of w) xs (refl, refl, refl, refl, refl, refl) alive.queue;
        posted = posted;
        tracked = alive.tracked;
        clients = alive.clients;
        nonnull = alive.nonnull;
        addrlen = alive.addrlen;
        accepting = alive.accepting;
        pending = λ p. omega (arith, alive.pending p);
        total = omega (arith, alive.total);
        ops_owned = alive.ops_owned;
        nodes_owned = alive.nodes_owned;
      } in
      elim (service_cqe_events-Handled n acc ls s w.flight xs ps cs x.user_data a.allocated taken
        x.res new_node new_op) [
          | inl gone ↦ inl (simp (got, gone))
          | inr after ↦ inr (record {
            calls = [];
            loop = record {
              server = after.server;
              to_submit = w.loop.to_submit + length after.sqes;
            };
            ran = simp (got, after.ran);
            serving = record {
              sqes = xs ++ after.sqes;
              cqes = ps;
              cells = after.cells;
              alive = after.alive;
              counted = λ e. omega (arith, counted e, length-append xs after.sqes);
            };
          })
        ]

-- From a state in which all is well, and with allocations that are new to the server, a turn of the
-- loop ends the process by a failed assertion or returns, whatever the CQE says and the calls answer:
-- it reads no freed, null or foreign pointer. All is well after it: the operations that are
-- outstanding are those of the clients that are tracked and the accept request, each once.
pub turn-IsServing :
    (n setup_flags : ℕ) (acc : Ptr) (ls : ℤ) (w : World) (a : Answers)
    → IsServing setup_flags acc ls w
    → w.loop.server.nodes a.allocated.tracker_ptr ≡ none
    → w.loop.server.ops a.allocated.op_ptr ≡ none
    → (turn n setup_flags w.loop a ≡ exited)
      ⊎ Turned setup_flags acc ls w (turn n setup_flags w.loop a)
turn-IsServing n f acc ls w a i new_node new_op = by_cqes i.cqes i.alive
  where
    by_cqes :
        (ps : List Cqe)
        → Alive acc ls w.loop.server w.flight i.sqes ps i.cells
        → (turn n f w.loop a ≡ exited) ⊎ Turned f acc ls w (turn n f w.loop a)
    by_cqes [] alive = idle-Turned n f acc ls w a i.sqes i.cells alive i.counted
    by_cqes (x ∷ ps) alive =
        busy-Turned n f acc ls w a i.sqes x ps i.cells alive i.counted new_node new_op
