-- ===== src/Benchmark/Written.antt =====
-- The file that `sb_save_bench` writes.
use linux_modern_io_multiple.Prelude.{
  ℕ, ◌≡◌, ◌∙◌, Bool-cases, inl, inr, refl, true, not, List, [], ◌∷◌, ◌++◌, some, map, take,
}
use linux_modern_io_multiple.Prelude.Run.{
  ok, Yields, Yields-bind, Yields-chain, Yields-if, Yields-ok, Yields-weaken,
}
use linux_modern_io_multiple.Time.{is_negative, Timespec, timespec_to_ns, time_delta}
use linux_modern_io_multiple.Measurements.{pcontainer_store}
use linux_modern_io_multiple.Measurements.Holder.{create_value_holder}
use linux_modern_io_multiple.Benchmark.{
  ServerBench, Piece, object_open, object_close, array_open, array_close, start_time, end_time,
  clients, requests, sb_record_event, sb_stop, sb_save_bench,
}
use linux_modern_io_multiple.Benchmark.Saved.{
  Event, latency, latencies, separated, IsMeasuring, record_events, saved_values-record_events,
}

-- Recording changes neither the counts nor when the measurement started.
record SameCounts (this this' : ServerBench) : Type 0 where
  started : this'.meas_start_time ≡ this.meas_start_time
  clients : this'.client_no ≡ this.client_no
  requests : this'.request_no ≡ this.request_no

sb_record_event-SameCounts :
    (this : ServerBench) (e : Event)
    → Yields (SameCounts this) (sb_record_event e.now this e.start e.end)
unfolding sb_record_event sb_stop
sb_record_event-SameCounts this e =
    Yields-if _ (not this.do_measure) _ _
      (record { started = refl; clients = refl; requests = refl })
      (Yields-bind _
        (pcontainer_store this.event_latency
          (create_value_holder (timespec_to_ns (time_delta e.end e.start))))
        _
        (λ (rc, container). elim (Bool-cases (is_negative rc)) [
          | inl full ↦ rw full (record { started = refl; clients = refl; requests = refl })
          | inr kept ↦ rw kept (record { started = refl; clients = refl; requests = refl })
        ]))

record_events-SameCounts :
    (this : ServerBench) (es : List Event) → Yields (SameCounts this) (record_events this es)
unfolding record_events
record_events-SameCounts this [] = record { started = refl; clients = refl; requests = refl }
record_events-SameCounts this (e ∷ es) =
    Yields-chain (SameCounts this) (SameCounts this) (sb_record_event e.now this e.start e.end) _
      (sb_record_event-SameCounts this e)
      (λ next same.
        Yields-weaken (SameCounts next) (SameCounts this) (record_events next es)
          (record_events-SameCounts next es)
          (λ r more. record {
            started = more.started ∙ same.started;
            clients = more.clients ∙ same.clients;
            requests = more.requests ∙ same.requests;
          }))

-- The pieces of the file, with these latencies.
abbrev pub file_of : ServerBench → Timespec → List ℕ → List Piece
file_of this now values =
    object_open
      ∷ start_time (timespec_to_ns this.meas_start_time)
      ∷ end_time (timespec_to_ns now)
      ∷ clients this.client_no
      ∷ requests this.request_no
      ∷ array_open
      ∷ separated values
    ++ (array_close ∷ object_close ∷ [])

-- Events are recorded while measuring, and the measurement is stopped and saved, to a file that can be
-- opened: `sb_save_bench` writes when the measurement started and was stopped, the counts, and an
-- array of the latencies that were there and those of the events, in order, as many as the container
-- has room for, with a comma between two and none at the end.
pub sb_save_bench-record_events :
    (es : List Event) (this : ServerBench) (now : Timespec)
    → IsMeasuring this
    → (this' : ServerBench) × (record_events this es ≡ ok this')
      × (sb_save_bench true (sb_stop now this')
          ≡ ok (
              some (
                file_of this now (
                  take this.event_latency.capacity
                    (latencies this.event_latency ++ map latency es)))))
unfolding sb_save_bench sb_stop
sb_save_bench-record_events es this now m =
    let (this', ran, saved) = saved_values-record_events es this m in
    let same = Yields-ok (SameCounts this) _ this' ran (record_events-SameCounts this es) in
    (this', ran, simp (saved, same.started, same.clients, same.requests))
