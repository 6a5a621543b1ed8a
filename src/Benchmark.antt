-- ===== src/Benchmark.antt =====
-- code/c/server/server_benchmark.c: what a server measures, and the file it writes.
-- The clock's answers are arguments. `client_no` is an `int` counted up from 0, here exact.
pub mod Measuring
pub mod Saved
pub mod Written
use linux_modern_io_multiple.Prelude.{
  ℕ, zero, suc, ◌+◌, ◌-◌, ◌*◌, ◌%◌, ◌^◌, Bool, true, false, List, [], ◌∷◌, ◌++◌, Option, none, some,
  take, drop, length, leb, ◌==◌, if◌then◌else◌, not,
}
use linux_modern_io_multiple.Prelude.Int.{ℤ, pos, negsuc}
use linux_modern_io_multiple.Prelude.Run.{Run, ok, exited, fault, ◌>>=◌, ◌>>◌, from_cell}
use linux_modern_io_multiple.Time.{
  Timespec, timespec, pattern_of, time_delta, timespec_to_ns, is_negative,
}
use linux_modern_io_multiple.Measurements.{
  Container, Block, pcontainer_create, pcontainer_store, pcontainer_free,
}
use linux_modern_io_multiple.Measurements.Holder.{sizeof_holder, create_value_holder, holder_value}

-- `struct server_bench`; `do_measure` is 0 or 1 in the code.
pub record ServerBench : Type 0 where
  pub do_measure : Bool
  pub client_no : ℕ
  pub request_no : ℕ
  pub meas_start_time : Timespec
  pub meas_end_time : Timespec
  pub event_latency : Container

abbrev pub zero_time : Timespec
zero_time = timespec (pos 0) (pos 0)

unfoldable pub sb_create : ℕ → Block → Run ServerBench
sb_create expected_no_events block = do
  container ← pcontainer_create sizeof_holder expected_no_events block
  ok (record {
    do_measure = false;
    client_no = 0;
    request_no = 0;
    meas_start_time = zero_time;
    meas_end_time = zero_time;
    event_latency = container;
  })

unfoldable pub sb_free : ServerBench → ServerBench
sb_free this = record this { event_latency = pcontainer_free this.event_latency }

unfoldable pub sb_start : Timespec → ServerBench → ServerBench
sb_start now this =
    if this.do_measure then this else record this { do_measure = true; meas_start_time = now }

unfoldable pub sb_stop : Timespec → ServerBench → ServerBench
sb_stop now this = record this { do_measure = false; meas_end_time = now }

unfoldable pub sb_client_connected : ServerBench → ServerBench
sb_client_connected this = record this { client_no = this.client_no + 1 }

-- `request_no` is a `uint64_t`, and `count` is converted to it.
unfoldable pub sb_requests_performed : ServerBench → ℤ → ServerBench
sb_requests_performed this count =
    if not this.do_measure
    then this
    else record this { request_no = (this.request_no + pattern_of (2 ^ 64) count) % 2 ^ 64 }

-- `now` is the clock's answer, if the container is full and measuring stops.
unfoldable pub sb_record_event : Timespec → ServerBench → (start end : Timespec) → Run ServerBench
sb_record_event now this start end =
    if not this.do_measure
    then ok this
    else (pcontainer_store this.event_latency
          (create_value_holder (timespec_to_ns (time_delta end start)))
        >>= λ (rc, container).
            let stored = record this { event_latency = container } in
            ok (if is_negative rc then sb_stop now stored else stored))

-- What is printed, piece by piece.
pub data Piece : Type 0 where
  object_open object_close array_open array_close comma : Piece
  start_time : ℕ → Piece
  end_time : ℕ → Piece
  clients : ℕ → Piece
  requests : ℕ → Piece
  value : ℕ → Piece

-- A read of `n` bytes at an offset: a fault through NULL and past the end of the block.
abbrev pub read_at : Block → ℕ → ℕ → Run (List ℕ)
read_at none off n = fault
read_at (some b) off n = if leb (off + n) (length b) then ok (take n (drop off b)) else fault

-- The loop of `sb_save_bench` at index `i`, with `n` rounds left.
unfoldable pub save_values : ℕ → Container → ℕ → Run (List Piece)
save_values zero c i = ok []
save_values (suc n) c i = do
  holder ← read_at c.ptr (i * c.entry_size) sizeof_holder
  rest ← save_values n c (i + 1)
  ok (value (holder_value holder) ∷ ((if i == c.size - 1 then [] else comma ∷ []) ++ rest))

-- `none` where nothing is written; `opened` says whether `fopen` succeeds.
unfoldable pub sb_save_bench : Bool → ServerBench → Run (Option (List Piece))
unfolding save_values
sb_save_bench opened this =
    if this.do_measure
    then ok none
    else (if not opened
        then exited
        else (save_values this.event_latency.size this.event_latency 0 >>= λ values. ok (
            some (
              object_open
                ∷ start_time (timespec_to_ns this.meas_start_time)
                ∷ end_time (timespec_to_ns this.meas_end_time)
                ∷ clients this.client_no
                ∷ requests this.request_no
                ∷ array_open
                ∷ values
              ++ (array_close ∷ object_close ∷ [])))))
