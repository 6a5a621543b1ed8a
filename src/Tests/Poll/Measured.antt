-- ===== src/Tests/Poll/Measured.antt =====
-- The poll server that measures, over a turn that is interrupted and one with a client, a message and
-- a client that hangs up.
use linux_modern_io_multiple.Prelude.{◌≡◌, refl, List, [], ◌∷◌, true, false, map}
use linux_modern_io_multiple.Prelude.Int.{pos, negsuc}
use linux_modern_io_multiple.Prelude.Run.{Yields}
use linux_modern_io_multiple.Prelude.Simulation.{run_map}
use linux_modern_io_multiple.Time.{timespec}
use linux_modern_io_multiple.Poll.Stop.{poll_loop as plain_loop}
use linux_modern_io_multiple.Poll.Measured.{Measured, Timed, Polled, poll_loop}
use linux_modern_io_multiple.Poll.Measured.Erased.{erased, Recordable, untimed, poll_loop-erased}
use linux_modern_io_multiple.Tests.Measuring.{bench, none-IsMeasuring}
use linux_modern_io_multiple.Tests.Poll.{server, vector, answers}

abbrev measured : Measured
measured = record { server = server vector; bench = bench 0 }

abbrev timed : Timed
timed = record {
  service = answers;
  start = timespec (pos 1) (pos 0);
  end = timespec (pos 1) (pos 500);
  started = timespec (pos 2) (pos 0);
  stopped = timespec (pos 3) (pos 0);
}

abbrev turns : List Polled
turns =
    record { no_events = negsuc 0; eintr = true; revents = []; answers = λ k. timed }
    ∷ record { no_events = pos 3; eintr = false; revents = 1 ∷ 1 ∷ 0x11 ∷ []; answers = λ k. timed }
    ∷ []

poll_loop-erased_example :
    (run_map erased (poll_loop 3 (pos 3) 7 measured turns)
      ≡ plain_loop 3 (pos 3) 7 (server vector) (map untimed turns))
    × Yields Recordable (poll_loop 3 (pos 3) 7 measured turns)
poll_loop-erased_example =
    poll_loop-erased 3 (pos 3) 7 turns measured
      (record { valid = none-IsMeasuring.valid; width = refl })
