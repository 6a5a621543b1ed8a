-- ===== src/Benchmark/Measuring.antt =====
-- What keeps a server's measurements recordable, whether or not it measures.
use linux_modern_io_multiple.Prelude.{◌≡◌, arith, Bool-cases, inl, inr, ℕ_discrete}
use linux_modern_io_multiple.Prelude.Int.{ℤ}
use linux_modern_io_multiple.Prelude.Run.{ok}
use linux_modern_io_multiple.Measurements.Entries.{IsValid}
use linux_modern_io_multiple.Benchmark.{
  ServerBench, sb_start, sb_stop, sb_client_connected, sb_requests_performed, sb_record_event,
}
use linux_modern_io_multiple.Benchmark.Saved.{
  IsMeasuring, Event, sb_record_event-append, sb_record_event-full,
}
use linux_modern_io_multiple.Time.{Timespec}

-- The measurements can be recorded: the container is allocated, for entries of eight bytes.
pub record CanMeasure (bench : ServerBench) : Type 0 where
  pub valid : IsValid bench.event_latency
  pub width : bench.event_latency.entry_size ≡ 8

-- Recording an event returns, whatever the state of the measurement, and measurements can be recorded
-- after it.
pub sb_record_event-CanMeasure :
    (bench : ServerBench) (e : Event)
    → CanMeasure bench
    → (bench' : ServerBench) × (sb_record_event e.now bench e.start e.end ≡ ok bench')
      × CanMeasure bench'
sb_record_event-CanMeasure bench e can = elim (Bool-cases bench.do_measure) [
  | inr off ↦ (bench, unfold sb_record_event in simp (off), can)
  | inl on ↦
      let measuring : IsMeasuring bench = record {
        on = on;
        valid = can.valid;
        width = can.width;
      } in
      elim (ℕ_discrete (bench.event_latency).size (bench.event_latency).capacity) [
        | yes full ↦ (
          sb_stop e.now bench,
          sb_record_event-full bench e measuring full,
          unfold sb_stop in record { valid = can.valid; width = can.width },
        )
        | no room ↦
            let (bench', ran, after, _, _, _) = sb_record_event-append bench e measuring room in
            (bench', ran, record { valid = after.valid; width = after.width })
      ]
]

-- Counting requests leaves the container alone.
pub sb_requests_performed-event_latency :
    (bench : ServerBench) (count : ℤ)
    → (sb_requests_performed bench count).event_latency ≡ bench.event_latency
unfolding sb_requests_performed
sb_requests_performed-event_latency bench count = ground arith

pub sb_requests_performed-IsMeasuring :
    (bench : ServerBench) (count : ℤ)
    → IsMeasuring bench
    → IsMeasuring (sb_requests_performed bench count)
sb_requests_performed-IsMeasuring bench count m =
    let same = sb_requests_performed-event_latency bench count in
    record {
      on = unfold sb_requests_performed in ground (arith, m.on);
      valid = rw same m.valid;
      width = rw same m.width;
    }

pub counted-CanMeasure :
    (bench : ServerBench) (count : ℤ)
    → CanMeasure bench
    → CanMeasure (sb_requests_performed bench count)
counted-CanMeasure bench count can =
    let same = sb_requests_performed-event_latency bench count in
    record { valid = rw same can.valid; width = rw same can.width }

pub connected-CanMeasure :
    (bench : ServerBench) → CanMeasure bench → CanMeasure (sb_client_connected bench)
unfolding sb_client_connected
connected-CanMeasure bench can = record { valid = can.valid; width = can.width }

pub sb_start-event_latency :
    (now : Timespec) (bench : ServerBench)
    → (sb_start now bench).event_latency ≡ bench.event_latency
unfolding sb_start
sb_start-event_latency now bench = ground arith

pub started-CanMeasure :
    (now : Timespec) (bench : ServerBench) → CanMeasure bench → CanMeasure (sb_start now bench)
started-CanMeasure now bench can =
    let same = sb_start-event_latency now bench in
    record { valid = rw same can.valid; width = rw same can.width }
