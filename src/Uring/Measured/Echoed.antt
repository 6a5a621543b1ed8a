-- ===== src/Uring/Measured/Echoed.antt =====
-- The latency of an echo over the turns of the loop that measures.
use linux_modern_io_multiple.Prelude.{
  ℕ, ◌+◌, ◌≡◌, ◌≢◌, ◌∙◌, sym, ap, arith, List, [], ◌∷◌, ◌++◌, Option, some, none, length,
}
use linux_modern_io_multiple.Prelude.Int.{ℤ, pos}
use linux_modern_io_multiple.Prelude.Run.{ok, Yields-ok, >>=-returned}
use linux_modern_io_multiple.Links.{Ptr}
use linux_modern_io_multiple.Time.{Timespec, time_delta, timespec_to_ns}
use linux_modern_io_multiple.Benchmark.{sb_requests_performed}
use linux_modern_io_multiple.Benchmark.Saved.{IsMeasuring, latencies}
use linux_modern_io_multiple.Benchmark.Measuring.{
  sb_requests_performed-event_latency, sb_requests_performed-IsMeasuring,
}
use linux_modern_io_multiple.Uring.Ring.{
  Iou, Cqe, IouOp, ClientCon, recv_from_client, send_to_client, iou_get_cqe,
}
use linux_modern_io_multiple.Uring.Setup.Entering.{EnterCall, iou_enter_or_wake}
use linux_modern_io_multiple.Uring.Server.{store_op, write_op}
use linux_modern_io_multiple.Uring.Server.Echo.{client_op, cqe_of}
use linux_modern_io_multiple.Uring.Loop.{Answers}
use linux_modern_io_multiple.Uring.Measured.{
  Measured, MeasuredLoop, Clock, service_cqe_events, handle, react, turn,
}
use linux_modern_io_multiple.Uring.Measured.Elsewhere.{service_cqe_events-KeepsOthers}
use linux_modern_io_multiple.Uring.Measured.Latency.{
  IsSending, handled, recv-IsSending, send-recorded,
}

-- The loop with other contents of the rings.
abbrev pub with_rings : MeasuredLoop → Iou → MeasuredLoop
with_rings w iou = record w {
  measured = record w.measured { server = record w.measured.server { iou = iou } };
}

-- The CQE, or none, that the next turn gets, with the rings after it.
abbrev pub Gets : MeasuredLoop → Option Cqe → Iou → Type 0
Gets w cqe iou = iou_get_cqe w.measured.server.iou ≡ ok (cqe, iou)

-- What the loop that measures and the kernel may do in any order, apart from the operation at `p`:
-- the kernel changes the rings as it takes SQEs and posts CQEs, or writes into the buffer of a client's
-- receive; a turn finds no CQE, or serves one that is not of `p` and does not get its memory.
pub data Meanwhile (n setup_flags : ℕ) (p : Ptr) (v : MeasuredLoop) : MeasuredLoop → Type 0 where
  start : Meanwhile n setup_flags p v v
  rings :
      (w : MeasuredLoop) (iou : Iou)
      → Meanwhile n setup_flags p v w
      → Meanwhile n setup_flags p v (with_rings w iou)
  receives :
      (w : MeasuredLoop) (q t : Ptr) (con : ClientCon) (bytes : List ℕ)
      → Meanwhile n setup_flags p v w
      → w.measured.server.ops q ≡ some (client_op recv_from_client con t)
      → length bytes ≡ length con.buf
      → Meanwhile n setup_flags p v (record w {
        measured = record w.measured {
          server =
              store_op w.measured.server q
                (client_op recv_from_client (record con { buf = bytes }) t);
        };
      })
  idles :
      (w w' : MeasuredLoop) (iou : Iou) (a : Answers) (clock : Clock) (calls : List EnterCall)
      → Meanwhile n setup_flags p v w
      → Gets w none iou
      → turn n setup_flags w a clock ≡ ok (calls, w')
      → Meanwhile n setup_flags p v w'
  serves :
      (w w' : MeasuredLoop) (x : Cqe) (iou : Iou) (a : Answers) (clock : Clock)
      (calls : List EnterCall)
      → Meanwhile n setup_flags p v w
      → Gets w (some x) iou
      → p ≢ x.user_data
      → p ≢ a.allocated.op_ptr
      → turn n setup_flags w a clock ≡ ok (calls, w')
      → Meanwhile n setup_flags p v w'

module _ (n setup_flags : ℕ) (w w' : MeasuredLoop) (iou : Iou) (a : Answers) (clock : Clock)
    (calls : List EnterCall) (ran : turn n setup_flags w a clock ≡ ok (calls, w')) where
  -- A turn that gets a CQE serves it.
  turn-served :
      (x : Cqe)
      → Gets w (some x) iou
      → (k : ℕ) × (service_cqe_events n (with_rings w iou).measured x a.allocated clock
          ≡ ok (k, w'.measured))
  unfolding turn react
  turn-served x got =
      let react_ran = simp got at ran in
      let ((k, m), served, more) =
        >>=-returned (service_cqe_events n (with_rings w iou).measured x a.allocated clock) _
          react_ran in
      let same : record { measured = m; to_submit = w.to_submit + k } ≡ w' = cc in
      (k, served ∙ ap (λ (l : MeasuredLoop). ok (k, l.measured)) same)

  turn-idle :
      Gets w none iou
      → (w'.measured.server.ops ≡ w.measured.server.ops)
        × (w'.measured.bench_start_send ≡ w.measured.bench_start_send)
  unfolding turn react
  turn-idle got =
      let react_ran = simp got at ran in
      let (made, _, more) =
        >>=-returned (iou_enter_or_wake setup_flags a.sq_flags w.to_submit a.rc) _ react_ran in
      let same : record (with_rings w iou) { to_submit = 0 } ≡ w' = cc in
      (
        sym (ap (λ (l : MeasuredLoop). l.measured.server.ops) same),
        sym (ap (λ (l : MeasuredLoop). l.measured.bench_start_send) same),
      )

-- The buffer that the kernel writes into is not of an echo that is under way.
receives-IsSending :
    (m : Measured) (p q u : Ptr) (t : Timespec) (con : ClientCon) (bytes : List ℕ)
    → m.server.ops q ≡ some (client_op recv_from_client con u)
    → IsSending m p t
    → IsSending
        (record m {
          server = store_op m.server q (client_op recv_from_client (record con { buf = bytes }) u);
        })
        p
        t
receives-IsSending m p q u t con bytes e s = record {
  op = s.op;
  here = (unfold store_op write_op in ground (arith, apart, s.here));
  kind = s.kind;
  began = s.began;
}
  where
    apart : p ≢ q
    apart same =
        let there : some s.op ≡ some (client_op recv_from_client con u) =
          sym s.here ∙ ap (λ r. m.server.ops r) same ∙ e in
        let kind : s.op ≡ client_op recv_from_client con u = cc in
        let clash : send_to_client ≡ recv_from_client =
          sym s.kind ∙ ap (λ (o : IouOp). o.op) kind in
        cc

Meanwhile-IsSending :
    (n setup_flags : ℕ) (p : Ptr) (v w : MeasuredLoop) (t : Timespec)
    → Meanwhile n setup_flags p v w
    → IsSending v.measured p t
    → IsSending w.measured p t
Meanwhile-IsSending n f p v w t start sends = sends
Meanwhile-IsSending n f p v _ t (rings w iou before) sends =
    let s = Meanwhile-IsSending n f p v w t before sends in
    record { op = s.op; here = s.here; kind = s.kind; began = s.began }
Meanwhile-IsSending n f p v _ t (receives w q u con bytes before e long) sends =
    let s = Meanwhile-IsSending n f p v w t before sends in
    receives-IsSending w.measured p q u t con bytes e s
Meanwhile-IsSending n f p v w' t (idles w _ iou a clock calls before got ran) sends =
    let s = Meanwhile-IsSending n f p v w t before sends in
    let (same, same_start) = turn-idle n f w w' iou a clock calls ran got in
    record {
      op = s.op;
      here = ap (λ o. o p) same ∙ s.here;
      kind = s.kind;
      began = ap (λ b. b p) same_start ∙ s.began;
    }
Meanwhile-IsSending n f p v w' t (serves w _ x iou a clock calls before got apart apart_new ran)
      sends =
    let s = Meanwhile-IsSending n f p v w t before sends in
    let (k, served) = turn-served n f w w' iou a clock calls ran x got in
    let (kept, kept_start) =
      service_cqe_events-KeepsOthers n (with_rings w iou).measured x a.allocated clock k w'.measured
        served p apart apart_new in
    record { op = s.op; here = kept ∙ s.here; kind = s.kind; began = kept_start ∙ s.began }

-- A turn of the loop that measures receives a whole message of a client, and a later one gets the
-- completion of the operation that sends it back; in between the loop takes other turns and the kernel
-- does its part. Where both turns return, and the server measures and its container has room as the
-- send is served, the time between the two is recorded, behind the latencies that are there.
pub turn-latency :
    (n setup_flags : ℕ) (w1 w2 w3 w4 : MeasuredLoop) (p : Ptr) (op : IouOp) (res : ℤ)
    (iou1 iou3 : Iou) (a1 a4 : Answers) (c1 c4 : Clock) (calls1 calls4 : List EnterCall)
    → n ≢ 0
    → w1.measured.server.ops p ≡ some op
    → op.op ≡ recv_from_client
    → Gets w1 (some (cqe_of p (pos n))) iou1
    → turn n setup_flags w1 a1 c1 ≡ ok (calls1, w2)
    → Meanwhile n setup_flags p w2 w3
    → IsMeasuring w3.measured.bench
    → (w3.measured.bench.event_latency).size ≢ (w3.measured.bench.event_latency).capacity
    → Gets w3 (some (cqe_of p res)) iou3
    → turn n setup_flags w3 a4 c4 ≡ ok (calls4, w4)
    → latencies w4.measured.bench.event_latency
      ≡ latencies w3.measured.bench.event_latency
        ++ (timespec_to_ns (time_delta c4.now c1.now) ∷ [])
unfolding handle
turn-latency n f w1 w2 w3 w4 p op res iou1 iou3 a1 a4 c1 c4 calls1 calls4 some_bytes here kind got1
      ran1 meanwhile measuring room got3 ran3 =
    let m1 = (with_rings w1 iou1).measured in
    let m3 = (with_rings w3 iou3).measured in
    let (k1, received) = turn-served n f w1 w2 iou1 a1 c1 calls1 ran1 (cqe_of p (pos n)) got1 in
    let got = rw kind at (handled n m1 (cqe_of p (pos n)) a1.allocated c1 op here received) in
    let sends =
      Yields-ok (λ ((k, m') : ℕ × Measured). IsSending m' p c1.now) _ (k1, w2.measured) got
        (recv-IsSending n (record m1 { bench = sb_requests_performed m1.bench (pos 1) }) p c1
          some_bytes) in
    let still = Meanwhile-IsSending n f p w2 w3 c1.now meanwhile sends in
    let (k4, sent) = turn-served n f w3 w4 iou3 a4 c4 calls4 ran3 (cqe_of p res) got3 in
    let done =
      rw still.kind at (handled n m3 (cqe_of p res) a4.allocated c4 still.op still.here sent) in
    let counted = record m3 { bench = sb_requests_performed m3.bench (pos 1) } in
    let same = sb_requests_performed-event_latency m3.bench (pos 1) in
    let recorded =
      Yields-ok
        (λ ((k, m') : ℕ × Measured).
          latencies m'.bench.event_latency
          ≡ latencies counted.bench.event_latency
            ++ (timespec_to_ns (time_delta c4.now (m3.bench_start_send p)) ∷ []))
        _ (k4, w4.measured) done
        (send-recorded n counted p res c4
          (sb_requests_performed-IsMeasuring m3.bench (pos 1) measuring) (rw same room)) in
    rw (← still.began, ← same) recorded
