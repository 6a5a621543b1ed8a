-- ===== src/Uring/Measured/Turns.antt =====
-- The turns of the loop in the build that measures.
use linux_modern_io_multiple.Prelude.{ℕ, ◌≡◌, refl, List, Option, none, some}
use linux_modern_io_multiple.Prelude.Run.{Yields, Run}
use linux_modern_io_multiple.Prelude.Simulation.{
  run_map, Simulates, Simulates-ok, Simulates-bind, Simulates-chain,
}
use linux_modern_io_multiple.Benchmark.Measuring.{CanMeasure}
use linux_modern_io_multiple.Uring.Ring.{Cqe, iou_get_cqe}
use linux_modern_io_multiple.Uring.Setup.Entering.{EnterCall, iou_enter_or_wake}
use linux_modern_io_multiple.Uring.Server.{service_cqe_events as plain_service}
use linux_modern_io_multiple.Uring.Loop.{Loop, Answers, react as plain_react, turn as plain_turn}
use linux_modern_io_multiple.Uring.Measured.{MeasuredLoop, Clock, service_cqe_events, react, turn}
use linux_modern_io_multiple.Uring.Measured.Erased.{service-SameAs}

-- The loop without its measurements.
abbrev pub plain : MeasuredLoop → Loop
plain w = record { server = w.measured.server; to_submit = w.to_submit }

-- What a turn returns, without the measurements.
abbrev pub plain_turned : List EnterCall × MeasuredLoop → List EnterCall × Loop
plain_turned (calls, w) = (calls, plain w)

abbrev pub StaysRecordable : List EnterCall × MeasuredLoop → Type 0
StaysRecordable (calls, w) = CanMeasure w.measured.bench

abbrev SameTurn : Run (List EnterCall × MeasuredLoop) → Run (List EnterCall × Loop) → Type 0
SameTurn = Simulates plain_turned StaysRecordable

module _ (n setup_flags : ℕ) (w : MeasuredLoop) (a : Answers) (clock : Clock)
    (can : CanMeasure w.measured.bench) where
  react-SameTurn :
      (cqe : Option Cqe)
      → SameTurn (react n setup_flags w a clock cqe) (plain_react n setup_flags (plain w) a cqe)
  unfolding react plain_react
  react-SameTurn none =
      Simulates-bind (iou_enter_or_wake setup_flags a.sq_flags w.to_submit a.rc) _ _
        (λ calls. Simulates-ok _ (calls, record (plain w) { to_submit = 0 }) refl can)
  react-SameTurn (some cqe) =
      Simulates-chain (service_cqe_events n w.measured cqe a.allocated clock)
        (plain_service n w.measured.server cqe a.allocated) _ _
        (service-SameAs n w.measured cqe a.allocated clock can)
        (λ (k, m) can'. Simulates-ok _ _ refl can')

turn-SameTurn :
    (n setup_flags : ℕ) (w : MeasuredLoop) (a : Answers) (clock : Clock)
    → CanMeasure w.measured.bench
    → SameTurn (turn n setup_flags w a clock) (plain_turn n setup_flags (plain w) a)
unfolding turn plain_turn
turn-SameTurn n setup_flags w a clock can =
    Simulates-bind (iou_get_cqe w.measured.server.iou) _ _ (λ (cqe, iou).
      let m = record w.measured { server = record w.measured.server { iou = iou } } in
      react-SameTurn n setup_flags (record w { measured = m }) a clock can cqe)

-- A turn of the loop that measures is a turn of the loop that does not: in any state, also with the
-- timer's request under way, it has the same outcome, whether it returns, leaves the process or
-- faults, makes the same calls of `io_uring_enter`, and leaves the same server and the same count of
-- SQEs to submit. The measurements can be recorded, and stay so.
pub turn-erased :
    (n setup_flags : ℕ) (w : MeasuredLoop) (a : Answers) (clock : Clock)
    → CanMeasure w.measured.bench
    → (run_map plain_turned (turn n setup_flags w a clock) ≡ plain_turn n setup_flags (plain w) a)
      × Yields StaysRecordable (turn n setup_flags w a clock)
turn-erased n setup_flags w a clock can =
    let same = turn-SameTurn n setup_flags w a clock can in (same.seen, same.keeps)
