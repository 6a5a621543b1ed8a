-- ===== src/Tests/Measuring.antt =====
-- Containers of two eight-byte entries, and a server that measures into one.
use linux_modern_io_multiple.Prelude.{
  ℕ, ◌≡◌, refl, arith, List, [], ◌∷◌, ◌++◌, take, map, replicate, true, some,
}
use linux_modern_io_multiple.Prelude.Int.{pos}
use linux_modern_io_multiple.Prelude.Run.{ok, fault}
use linux_modern_io_multiple.Time.{timespec}
use linux_modern_io_multiple.Measurements.{Container, pcontainer_store, pcontainer_free}
use linux_modern_io_multiple.Measurements.Entries.{IsValid, pcontainer_store-pcontainer_free}
use linux_modern_io_multiple.Benchmark.{ServerBench, zero_time, sb_stop, sb_save_bench}
use linux_modern_io_multiple.Benchmark.Saved.{Event, latency, latencies, IsMeasuring, record_events}
use linux_modern_io_multiple.Benchmark.Written.{file_of, sb_save_bench-record_events}

abbrev block : List ℕ
block = replicate 16 0

abbrev container : ℕ → Container
container size = record { entry_size = 8; capacity = 2; size = size; ptr = some block }

one-IsValid : IsValid (container 1)
one-IsValid = record { block = block; allocated = refl; room = omega arith; within = omega arith }

two-IsValid : IsValid (container 2)
two-IsValid = record { block = block; allocated = refl; room = omega arith; within = omega arith }

abbrev holder : List ℕ
holder = 1 ∷ 2 ∷ 3 ∷ 4 ∷ 5 ∷ 6 ∷ 7 ∷ 8 ∷ []

pcontainer_store-pcontainer_free_example :
    pcontainer_store (pcontainer_free (container 2)) holder ≡ fault
pcontainer_store-pcontainer_free_example =
    pcontainer_store-pcontainer_free (container 2) holder refl (omega arith)

abbrev pub bench : ℕ → ServerBench
bench size = record {
  do_measure = true;
  client_no = 1;
  request_no = 0;
  meas_start_time = zero_time;
  meas_end_time = zero_time;
  event_latency = container size;
}

one-IsMeasuring : IsMeasuring (bench 1)
one-IsMeasuring = record { on = refl; valid = one-IsValid; width = refl }

pub none-IsMeasuring : IsMeasuring (bench 0)
none-IsMeasuring = record {
  on = refl;
  valid = record { block = block; allocated = refl; room = omega arith; within = omega arith };
  width = refl;
}

two-IsMeasuring : IsMeasuring (bench 2)
two-IsMeasuring = record { on = refl; valid = two-IsValid; width = refl }

abbrev event : ℕ → Event
event ns = record {
  start = timespec (pos 3) (pos 999_999_999);
  end = timespec (pos 4) (pos ns);
  now = timespec (pos 9) (pos 0);
}

-- One entry fits, the next stops the measurement.
sb_save_bench-record_events_example :
    (this' : ServerBench) × (record_events (bench 1) (event 50 ∷ event 60 ∷ []) ≡ ok this')
    × (sb_save_bench true (sb_stop (timespec (pos 9) (pos 1)) this')
        ≡ ok (
            some (
              file_of
                (bench 1)
                (timespec (pos 9) (pos 1))
                (take 2 (latencies (container 1) ++ map latency (event 50 ∷ event 60 ∷ []))))))
sb_save_bench-record_events_example =
    sb_save_bench-record_events (event 50 ∷ event 60 ∷ []) (bench 1) (timespec (pos 9) (pos 1))
      one-IsMeasuring
