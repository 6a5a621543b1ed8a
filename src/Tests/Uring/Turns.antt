-- ===== src/Tests/Uring/Turns.antt =====
-- A turn of the io_uring server that measures: the message of a client has been received.
use linux_modern_io_multiple.Prelude.{◌≡◌, refl, [], ◌∷◌}
use linux_modern_io_multiple.Prelude.Int.{pos}
use linux_modern_io_multiple.Prelude.Run.{Yields}
use linux_modern_io_multiple.Uring.Server.Echo.{cqe_of}
use linux_modern_io_multiple.Uring.Measured.{MeasuredLoop, turn}
use linux_modern_io_multiple.Prelude.Simulation.{run_map}
use linux_modern_io_multiple.Uring.Loop.{turn as plain_turn}
use linux_modern_io_multiple.Uring.Measured.Turns.{
  plain, plain_turned, StaysRecordable, turn-erased,
}
use linux_modern_io_multiple.Tests.Measuring.{none-IsMeasuring}
use linux_modern_io_multiple.Tests.Uring.Busy.{busy_world}
use linux_modern_io_multiple.Tests.Uring.Loops.{given}
use linux_modern_io_multiple.Tests.Uring.Measured.{before, at_second}

abbrev busy_loop : MeasuredLoop
busy_loop = record {
  measured = record before { server = (busy_world (cqe_of 200 (pos 3)) (100 ∷ [])).loop.server };
  to_submit = 1;
}

turn-erased_example :
    (run_map plain_turned (turn 3 0 busy_loop given (at_second 1))
      ≡ plain_turn 3 0 (plain busy_loop) given)
    × Yields StaysRecordable (turn 3 0 busy_loop given (at_second 1))
turn-erased_example =
    turn-erased 3 0 busy_loop given (at_second 1)
      (record { valid = none-IsMeasuring.valid; width = refl })
