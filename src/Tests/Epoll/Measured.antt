-- ===== src/Tests/Epoll/Measured.antt =====
-- The epoll server that measures, over a turn that is interrupted and one with a message and a client
-- that hangs up.
use linux_modern_io_multiple.Prelude.{◌≡◌, refl, List, [], ◌∷◌, true, map}
use linux_modern_io_multiple.Prelude.Int.{pos}
use linux_modern_io_multiple.Prelude.Run.{Yields}
use linux_modern_io_multiple.Prelude.Simulation.{run_map}
use linux_modern_io_multiple.Time.{timespec}
use linux_modern_io_multiple.Epoll.Stop.{epoll_loop as plain_loop}
use linux_modern_io_multiple.Epoll.Measured.{Measured, Clock, Waited, unready, ready, epoll_loop}
use linux_modern_io_multiple.Epoll.Measured.Erased.{erased, Recordable, untimed, epoll_loop-erased}
use linux_modern_io_multiple.Tests.Measuring.{bench, none-IsMeasuring}
use linux_modern_io_multiple.Tests.Epoll.{server, zeroes, readable, hung_up}

abbrev measured : Measured
measured = record { server = server; bench = bench 0 }

abbrev clock : Clock
clock = record {
  start = timespec (pos 1) (pos 0);
  end = timespec (pos 1) (pos 500);
  started = timespec (pos 2) (pos 0);
  stopped = timespec (pos 3) (pos 0);
}

abbrev turns : List Waited
turns =
    unready true
    ∷ ready (
        record { event = readable; clock = clock } ∷ record { event = hung_up; clock = clock } ∷ [])
    ∷ []

epoll_loop-erased_example :
    (run_map erased (epoll_loop 3 zeroes (pos 3) measured turns)
      ≡ plain_loop 3 zeroes (pos 3) server (map untimed turns))
    × Yields Recordable (epoll_loop 3 zeroes (pos 3) measured turns)
epoll_loop-erased_example =
    epoll_loop-erased 3 zeroes (pos 3) turns measured
      (record { valid = none-IsMeasuring.valid; width = refl })
