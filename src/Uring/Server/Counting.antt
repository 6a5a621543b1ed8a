-- ===== src/Uring/Server/Counting.antt =====
-- The count of SQEs that the handlers return.
use linux_modern_io_multiple.Prelude.{
  ℕ, ◌≡◌, refl, sym, ap, inl, inr, List, [], ◌∷◌, ◌++◌, append_assoc, append-nil, length,
  Bool-cases, ltb, ◌==◌, some, none, subst,
}
use linux_modern_io_multiple.Prelude.Int.{ℤ, pos, eqb_ℤ}
use linux_modern_io_multiple.Prelude.Run.{
  ok, exited, ◌>>=◌, >>=-returned, assert_zero, assert_nonn, assert_nnull, from_cell,
}
use linux_modern_io_multiple.Links.{Ptr, null, node, write, free}
use linux_modern_io_multiple.Uring.Tracker.{mem_t_push_back, mem_t_remove_node}
use linux_modern_io_multiple.Uring.Ring.{Sqe, Cqe, OpType}
use linux_modern_io_multiple.Uring.Ring.Submission.{IsQueue}
use linux_modern_io_multiple.Uring.Server.{
  Server, Allocated, submit, load_op, store_op, handle_new_client, prep_close_client_req,
  handle_cqe_accept, handle_cqe_close, handle_cqe_recv, handle_cqe_send, handle_cqe_timer, handle,
  service_cqe_events, handle_closing_client, free_op, write_op, con_of, etime,
}
use linux_modern_io_multiple.Uring.Server.Submit.{submit-one}

-- The queue has grown from `xs` by as many SQEs as the number says.
abbrev pub Grown : List Sqe → ℕ × Server → Type 0
Grown xs r = (ys : List Sqe) × IsQueue (r.1).iou (xs ++ ys) × (length ys ≡ r.0)

-- A handler that submits one operation and says so.
one_more :
    (n : ℕ) (s : Server) (xs : List Sqe) (p : Ptr) {r : ℕ × Server}
    → IsQueue s.iou xs
    → (submit n s p >>= λ s'. ok (1, s')) ≡ ok r
    → Grown xs r
one_more n s xs p {r} q ran =
    let (s', done, e) = >>=-returned (submit n s p) _ ran in
    let (sqe, q') = submit-one n s xs q p done in
    let same : (1, s') ≡ r = cc in subst (λ t. Grown xs t) same (sqe ∷ [], q', refl)

-- Nothing submitted.
no_more :
    (s : Server) (xs : List Sqe) {r : ℕ × Server} → IsQueue s.iou xs → ok (0, s) ≡ ok r → Grown xs r
no_more s xs {r} q ran =
    let same : (0, s) ≡ r = cc in subst (λ t. Grown xs t) same ([], rw append-nil q, refl)

prep_close_client_req-counts :
    (n : ℕ) (s : Server) (xs : List Sqe) (p : Ptr) {r : ℕ × Server}
    → IsQueue s.iou xs
    → prep_close_client_req n s p ≡ ok r
    → Grown xs r
unfolding prep_close_client_req store_op
prep_close_client_req-counts n s xs p q ran =
    let (op, _, more) = >>=-returned (load_op s p) _ ran in one_more n _ xs p q more

handle_new_client-one :
    (n : ℕ) (s : Server) (xs : List Sqe) (fd : ℤ) (a : Allocated) {s' : Server}
    → IsQueue s.iou xs
    → handle_new_client n s fd a ≡ ok s'
    → (sqe : Sqe) × IsQueue s'.iou (xs ++ (sqe ∷ []))
unfolding handle_new_client store_op
handle_new_client-one n s xs fd a q ran =
    let (_, _, more) = >>=-returned (assert_nnull a.tracker_ptr) _ ran in
    let (_, _, more) = >>=-returned (assert_nnull a.op_ptr) _ more in
    let nodes = write s.nodes a.tracker_ptr (some (node a.op_ptr null null)) in
    let (_, _, more) = >>=-returned (mem_t_push_back s.tracker a.tracker_ptr nodes) _ more in
    submit-one n _ xs q a.op_ptr more

handle_cqe_accept-counts :
    (n : ℕ) (s : Server) (xs : List Sqe) (p : Ptr) (res : ℤ) (a : Allocated) {r : ℕ × Server}
    → IsQueue s.iou xs
    → handle_cqe_accept n s p res a ≡ ok r
    → Grown xs r
unfolding handle_cqe_accept
handle_cqe_accept-counts n s xs p res a {r} q ran =
    let (fd, _, more) = >>=-returned (assert_nonn res) _ ran in
    let (s1, first, more) = >>=-returned (handle_new_client n s (pos fd) a) _ more in
    let (s2, second, e) = >>=-returned (submit n s1 p) _ more in
    let (x, q1) = handle_new_client-one n s xs (pos fd) a q first in
    let (y, q2) = submit-one n s1 (xs ++ (x ∷ [])) q1 p second in
    let same : (2, s2) ≡ r = cc in
    subst (λ t. Grown xs t) same
      (x ∷ (y ∷ []), rw (sym (append_assoc xs (x ∷ []) (y ∷ []))) q2, refl)

free_op-iou : (s : Server) (p : Ptr) {s' : Server} → free_op s p ≡ ok s' → s'.iou ≡ s.iou
unfolding free_op
free_op-iou s p {s'} ran = elim (Bool-cases (p == null)) [
  | inl gone ↦
      let e : ok s ≡ ok s' = simp gone at ran in
      let same : s ≡ s' = cc in ap (λ (t : Server). t.iou) (sym same)
  | inr there ↦
      let (_, _, e) = >>=-returned (from_cell (s.ops p)) _ (simp there at ran) in
      let same : record s { ops = write_op s.ops p none } ≡ s' = cc in
      ap (λ (t : Server). t.iou) (sym same)
]

handle_closing_client-iou :
    (s : Server) (p : Ptr) {s' : Server} → handle_closing_client s p ≡ ok s' → s'.iou ≡ s.iou
unfolding handle_closing_client
handle_closing_client-iou s p ran =
    let (op, _, more) = >>=-returned (load_op s p) _ ran in
    let (_, _, more) = >>=-returned (mem_t_remove_node s.tracker op.mem_tracker s.nodes) _ more in
    let (_, _, more) = >>=-returned (free _ op.mem_tracker) _ more in free_op-iou _ p more

handle_cqe_close-counts :
    (s : Server) (xs : List Sqe) (p : Ptr) (res : ℤ) {r : ℕ × Server}
    → IsQueue s.iou xs
    → handle_cqe_close s p res ≡ ok r
    → Grown xs r
unfolding handle_cqe_close store_op
handle_cqe_close-counts s xs p res q ran =
    let (_, _, more) = >>=-returned (assert_zero res) _ ran in
    let (op, _, more) = >>=-returned (load_op s p) _ more in
    let (con, _, more) = >>=-returned (con_of op.info) _ more in
    let (s', closed, more) = >>=-returned (handle_closing_client _ p) _ more in
    no_more s' xs (rw (handle_closing_client-iou _ p closed) q) more

handle_cqe_recv-counts :
    (n : ℕ) (s : Server) (xs : List Sqe) (p : Ptr) (res : ℤ) {r : ℕ × Server}
    → IsQueue s.iou xs
    → handle_cqe_recv n s p res ≡ ok r
    → Grown xs r
unfolding handle_cqe_recv store_op
handle_cqe_recv-counts n s xs p res {r} q ran =
    let (op, _, more) = >>=-returned (load_op s p) _ ran in
    let (con, _, more) = >>=-returned (con_of op.info) _ more in
    let (m, _, more) = >>=-returned (assert_nonn res) _ more in
    elim (Bool-cases (m == 0)) [
      | inl none_read ↦ prep_close_client_req-counts n _ xs p q (simp none_read at more)
      | inr some_read ↦ elim (Bool-cases (ltb n m)) [
        | inl long ↦ absurd (exited-ne (simp (some_read, long) at more))
        | inr not_long ↦ elim (Bool-cases (ltb m n)) [
          | inl short ↦ absurd (exited-ne (simp (some_read, not_long, short) at more))
          | inr whole ↦ one_more n _ xs p q (simp (some_read, not_long, whole) at more)
        ]
      ]
    ]
  where
    exited-ne : {t : ℕ × Server} → exited ≡ ok t → ⊥
    exited-ne e = cc

handle_cqe_send-counts :
    (n : ℕ) (s : Server) (xs : List Sqe) (p : Ptr) (res : ℤ) {r : ℕ × Server}
    → IsQueue s.iou xs
    → handle_cqe_send n s p res ≡ ok r
    → Grown xs r
unfolding handle_cqe_send store_op
handle_cqe_send-counts n s xs p res {r} q ran =
    let (op, _, more) = >>=-returned (load_op s p) _ ran in
    let (con, _, more) = >>=-returned (con_of op.info) _ more in
    let (m, _, more) = >>=-returned (assert_nonn res) _ more in
    elim (Bool-cases (ltb m n)) [
      | inl short ↦ let gone : exited ≡ ok r = simp short at more in cc
      | inr whole ↦ one_more n _ xs p q (simp whole at more)
    ]

handle_cqe_timer-counts :
    (s : Server) (xs : List Sqe) (p : Ptr) (res : ℤ) {r : ℕ × Server}
    → IsQueue s.iou xs
    → handle_cqe_timer s p res ≡ ok r
    → Grown xs r
unfolding handle_cqe_timer
handle_cqe_timer-counts s xs p res {r} q ran = elim (Bool-cases (eqb_ℤ res etime)) [
  | inl fired ↦ no_more s xs q (simp fired at ran)
  | inr other ↦ let gone : exited ≡ ok r = simp other at ran in cc
]

-- Whatever a CQE leads to, the number that its handler returns is that of the SQEs appended to the
-- queue, where it returns.
pub service_cqe_events-counts :
    (n : ℕ) (s : Server) (xs : List Sqe) (cqe : Cqe) (a : Allocated) {r : ℕ × Server}
    → IsQueue s.iou xs
    → service_cqe_events n s cqe a ≡ ok r
    → Grown xs r
unfolding service_cqe_events handle
service_cqe_events-counts n s xs cqe a {r} q ran =
    let (op, _, more) = >>=-returned (load_op s cqe.user_data) _ ran in by_kind op.op more
  where
    by_kind : (k : OpType) → handle n s cqe.user_data cqe.res a k ≡ ok r → Grown xs r
    by_kind OpType.accepted_connection more =
        handle_cqe_accept-counts n s xs cqe.user_data cqe.res a q more
    by_kind OpType.close_connection more = handle_cqe_close-counts s xs cqe.user_data cqe.res q more
    by_kind OpType.recv_from_client more =
        handle_cqe_recv-counts n s xs cqe.user_data cqe.res q more
    by_kind OpType.send_to_client more = handle_cqe_send-counts n s xs cqe.user_data cqe.res q more
    by_kind OpType.timer_expired more = handle_cqe_timer-counts s xs cqe.user_data cqe.res q more
