-- ===== src/Uring/Server/Submit.antt =====
-- What `rc = iou_config_and_submit(iou, op); io_uring_assert_zero(rc, ...)` does to the submission
-- queue.
use linux_modern_io_multiple.Prelude.{
  ℕ, ◌<◌, ◌≡◌, arith, List, [], ◌∷◌, ◌++◌, length, subst, dec_lt,
}
use linux_modern_io_multiple.Prelude.Run.{ok, exited, ◌>>=◌, >>=-returned, assert_zero}
use linux_modern_io_multiple.Links.{Ptr}
use linux_modern_io_multiple.Uring.Ring.{
  Iou, Sqe, IouOp, config_sqe, zero_sqe, iou_config_and_submit,
}
use linux_modern_io_multiple.Uring.Ring.Completion.{SameCompletions}
use linux_modern_io_multiple.Uring.Ring.Submission.{
  IsQueue, iou_config_and_submit-full, iou_config_and_submit-append, iou_config_and_submit-config,
}
use linux_modern_io_multiple.Uring.Server.{Server, submit, load_op}

module _ (buffer_size : ℕ) (s : Server) (xs : List Sqe) (q : IsQueue s.iou xs) where
  -- With room for it, the SQE of the operation at an address is appended.
  pub submit-append :
      (p : Ptr) (op : IouOp) (sqe : Sqe)
      → length xs < (s.iou).ring_size
      → load_op s p ≡ ok op
      → config_sqe buffer_size p op.op op.info (record zero_sqe { user_data = p }) ≡ ok sqe
      → (iou' : Iou) × (submit buffer_size s p ≡ ok (record s { iou = iou' }))
        × IsQueue iou' (xs ++ (sqe ∷ []))
        × (iou'.ring_size ≡ (s.iou).ring_size)
        × SameCompletions iou' s.iou
  unfolding submit
  submit-append p op sqe room there e =
      let (iou', ran, q', size, cq) =
        iou_config_and_submit-append buffer_size s.iou xs p op sqe q room e in
      (iou', simp (there, ran), q', size, cq)

  -- With no room, the process ends.
  pub submit-exited :
      (p : Ptr) (op : IouOp)
      → length xs ≡ (s.iou).ring_size
      → load_op s p ≡ ok op
      → submit buffer_size s p ≡ exited
  unfolding submit
  submit-exited p op full there =
      simp (there, iou_config_and_submit-full buffer_size s.iou xs p op q full)

  -- Where it returned, there was room, and one SQE more is queued.
  pub submit-one :
      (p : Ptr) {s' : Server}
      → submit buffer_size s p ≡ ok s'
      → (sqe : Sqe) × IsQueue s'.iou (xs ++ (sqe ∷ []))
  submit-one p {s'} ran =
      let (op, there, _) = unfolded in
      elim (dec_lt (length xs) (s.iou).ring_size) [
        | yes room ↦
            let (r, config, _) =
              >>=-returned (iou_config_and_submit buffer_size s.iou p op) _ unfolded.2 in
            let (sqe, e) = iou_config_and_submit-config buffer_size s.iou xs p op q room config in
            let (iou', ran', q', _, _) = submit-append p op sqe room there e in
            let same : record s { iou = iou' } ≡ s' = cc in
            (sqe, subst (λ (t : Server). IsQueue t.iou (xs ++ (sqe ∷ []))) same q')
        | no full ↦ let gone = submit-exited p op (omega (arith, q.room)) there in cc
      ]
    where
      unfolded :
          (op : IouOp) × (load_op s p ≡ ok op)
          × ((iou_config_and_submit buffer_size s.iou p op >>= λ (rc, iou).
                assert_zero rc >>= λ _. ok (record s { iou = iou }))
              ≡ ok s')
      unfolded = (unfold submit in >>=-returned (load_op s p) _ ran)
