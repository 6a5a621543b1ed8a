-- ===== src/Uring/Server/Starting.antt =====
-- What the io_uring server does before its loop and after its clean-up: the signal masks, the timer of
-- the benchmark, the listening socket.
use linux_modern_io_multiple.Prelude.{ℕ, List, [], ◌∷◌, ◌++◌, ◌≡◌, ◌≢◌, ◌<◌, refl, length, some}
use linux_modern_io_multiple.Prelude.Int.{ℤ}
use linux_modern_io_multiple.Prelude.Run.{Run, ok, ◌>>=◌, ◌>>◌, assert_zero}
use linux_modern_io_multiple.Links.{Ptr, null}
use linux_modern_io_multiple.Uring.Ring.{
  Sqe, IouOp, timer_expired, info_timer, config_sqe, zero_sqe, Opcode, Addr,
}
use linux_modern_io_multiple.Uring.Ring.Submission.{IsQueue}
use linux_modern_io_multiple.Uring.Server.{
  Server, Allocated, load_op, store_op, submit, service_cqe_events, handle, handle_cqe_timer, etime,
}
use linux_modern_io_multiple.Uring.Server.Echo.{Next, load_op-ok, submit-store_op, cqe_of}

-- `sigprocmask`, `sigemptyset` and `sigaddset`.
unfoldable pub create_signal_masks : (sigprocmask sigemptyset sigaddset : ℤ) → Run (Unit {0})
create_signal_masks sigprocmask sigemptyset sigaddset =
    assert_zero sigprocmask >> (assert_zero sigemptyset >> assert_zero sigaddset)

-- Ten seconds.
unfoldable pub create_timer_sqe : ℕ → Server → Ptr → Run (ℕ × Server)
create_timer_sqe n s p = do
  op ← load_op s p
  let req = record op { op = timer_expired; info = info_timer 10 0 }
  s ← submit n (store_op s p req) p
  ok (1, s)

unfoldable pub do_exit_cleanup : (ℤ → ℤ) → ℤ → Server → Run Server
do_exit_cleanup close ls s =
    assert_zero (close ls) >> ok (record s { closed = s.closed ++ (ls ∷ []) })

abbrev pub timer_op : IouOp → IouOp
timer_op op = record op { op = timer_expired; info = info_timer 10 0 }

abbrev pub timer_sqe : Ptr → Sqe
timer_sqe p = record zero_sqe {
  opcode = Opcode.timeout;
  addr = Addr.timer_spec p;
  len = 1;
  user_data = p;
}

-- While the ring has room, the timer's SQE is queued; once its CQE says that the time is over, no SQE
-- follows and the server stays as it is.
pub create_timer_sqe-service_cqe_events :
    (n : ℕ) (s : Server) (xs : List Sqe) (p : Ptr) (op : IouOp) (a : Allocated)
    → IsQueue s.iou xs
    → length xs < (s.iou).ring_size
    → p ≢ null
    → s.ops p ≡ some op
    → (s' : Server) × (create_timer_sqe n s p ≡ ok (1, s'))
      × Next s xs p (timer_op op) (timer_sqe p) s'
      × (service_cqe_events n s' (cqe_of p etime) a ≡ ok (0, s'))
unfolding create_timer_sqe service_cqe_events handle handle_cqe_timer config_sqe
create_timer_sqe-service_cqe_events n s xs p op a q room ne e =
    let (s', ran, next) = submit-store_op n s xs p (timer_op op) (timer_sqe p) q room ne refl in
    (
      s',
      simp (load_op-ok s p op ne e, ran),
      next,
      simp (load_op-ok s' p (timer_op op) ne next.here),
    )
