-- ===== src/Uring/Server/Exits.antt =====
-- The events on which the handlers end the process.
use linux_modern_io_multiple.Prelude.{
  ℕ, suc, dec_lt, ◌∙◌, ◌≡◌, ◌≢◌, ◌≤◌, refl, arith, List, [], ◌∷◌, ◌++◌, length, length-append, true,
  false, ltb, ◌==◌, some, ap,
}
use linux_modern_io_multiple.Prelude.Int.{ℤ, pos, negsuc}
use linux_modern_io_multiple.Prelude.Run.{exited, assert_zero}
use linux_modern_io_multiple.Links.{Ptr, null}
use linux_modern_io_multiple.Links.Chain.{Cells, IsList, not_null, has}
use linux_modern_io_multiple.Uring.Ring.{
  Sqe, ClientCon, close_connection, recv_from_client, send_to_client, config_sqe,
}
use linux_modern_io_multiple.Uring.Ring.Submission.{IsQueue}
use linux_modern_io_multiple.Uring.Server.{
  Server, Allocated, store_op, con_of, prep_close_client_req, handle_cqe_recv, handle_cqe_send,
  handle_cqe_close, handle_cqe_accept, handle_new_client, handle, service_cqe_events, new_op,
}
use linux_modern_io_multiple.Uring.Server.Submit.{submit-exited}
use linux_modern_io_multiple.Uring.Server.Clients.{accept_op, fresh_con, tracked_new}
use linux_modern_io_multiple.Uring.Server.Echo.{
  client_op, load_op-ok, load_op-store_op, cqe_of, submit-store_op, recv_sqe,
}

pub assert_zero-exited : (r : ℤ) → r ≢ pos 0 → assert_zero r ≡ exited
assert_zero-exited (negsuc m) h = refl
assert_zero-exited (pos m) h =
    let not_zero : (m == 0) ≡ false = ground (arith, m0) in simp (not_zero)
  where
    m0 : m ≢ 0
    m0 k = h (ap (λ i. pos i) k)

module _ (n : ℕ) (s : Server) (p : Ptr) (a : Allocated) where
  module _ (con : ClientCon) (t : Ptr) where
    pub close-exited :
        (r : ℤ)
        → p ≢ null
        → s.ops p ≡ some (client_op close_connection con t)
        → r ≢ pos 0
        → service_cqe_events n s (cqe_of p r) a ≡ exited
    unfolding service_cqe_events handle handle_cqe_close
    close-exited r ne e bad =
        simp (load_op-ok s p (client_op close_connection con t) ne e, assert_zero-exited r bad)

    pub send-exited :
        (r : ℤ)
        → p ≢ null
        → s.ops p ≡ some (client_op send_to_client con t)
        → ((m : ℕ) → r ≡ pos m → ltb m n ≡ true)
        → service_cqe_events n s (cqe_of p r) a ≡ exited
    unfolding service_cqe_events handle handle_cqe_send con_of
    send-exited (negsuc m) ne e short = simp (load_op-ok s p (client_op send_to_client con t) ne e)
    send-exited (pos m) ne e short =
        simp (load_op-ok s p (client_op send_to_client con t) ne e, short m refl)

  pub accept-exited :
      (ls : ℤ) (l m : ℕ)
      → p ≢ null
      → s.ops p ≡ some (accept_op ls l)
      → service_cqe_events n s (cqe_of p (negsuc m)) a ≡ exited
  unfolding service_cqe_events handle handle_cqe_accept
  accept-exited ls l m ne e = simp (load_op-ok s p (accept_op ls l) ne e)

  -- No memory for the client.
  pub accept-no_tracker :
      (ls : ℤ) (l fd : ℕ)
      → p ≢ null
      → s.ops p ≡ some (accept_op ls l)
      → (a.tracker_ptr == 0) ≡ true
      → service_cqe_events n s (cqe_of p (pos fd)) a ≡ exited
  unfolding service_cqe_events handle handle_cqe_accept handle_new_client
  accept-no_tracker ls l fd ne e gone = simp (load_op-ok s p (accept_op ls l) ne e, gone)

  pub accept-no_op :
      (ls : ℤ) (l fd : ℕ)
      → p ≢ null
      → s.ops p ≡ some (accept_op ls l)
      → (a.tracker_ptr == 0) ≡ false
      → (a.op_ptr == 0) ≡ true
      → service_cqe_events n s (cqe_of p (pos fd)) a ≡ exited
  unfolding service_cqe_events handle handle_cqe_accept handle_new_client
  accept-no_op ls l fd ne e there gone = simp (load_op-ok s p (accept_op ls l) ne e, there, gone)

  module _ (xs : List Sqe) (q : IsQueue s.iou xs) (full : length xs ≡ (s.iou).ring_size)
      (con : ClientCon) (t : Ptr) where
    pub hangup-full :
        p ≢ null
        → s.ops p ≡ some (client_op recv_from_client con t)
        → service_cqe_events n s (cqe_of p (pos 0)) a ≡ exited
    unfolding service_cqe_events handle handle_cqe_recv con_of prep_close_client_req store_op
    hangup-full ne e =
        let idle = client_op recv_from_client (record con { busy = false }) t in
        let closing = client_op close_connection (record con { busy = false }) t in
        simp (
          load_op-ok s p (client_op recv_from_client con t) ne e,
          load_op-store_op s p idle ne,
          submit-exited n (store_op (store_op s p idle) p closing) xs q p closing full
              (load_op-store_op (store_op s p idle) p closing ne),
        )

    pub sent-full :
        (m : ℕ)
        → p ≢ null
        → ltb m n ≡ false
        → s.ops p ≡ some (client_op send_to_client con t)
        → service_cqe_events n s (cqe_of p (pos m)) a ≡ exited
    unfolding service_cqe_events handle handle_cqe_send con_of store_op
    sent-full m ne whole e =
        let op = client_op recv_from_client (record con { busy = true }) t in
        simp (
          load_op-ok s p (client_op send_to_client con t) ne e,
          whole,
          submit-exited n (store_op s p op) xs q p op full (load_op-store_op s p op ne),
        )

-- With room for less than two SQEs, an accepted connection ends the process.
pub accept-full :
    (n : ℕ) (s : Server) (xs : List Sqe) (cs : Cells Ptr) (p : Ptr) (fd l : ℕ) (ls : ℤ)
    (a : Allocated)
    → IsQueue s.iou xs
    → (s.iou).ring_size ≤ suc (length xs)
    → IsList s.tracker s.nodes cs
    → p ≢ null
    → s.ops p ≡ some (accept_op ls l)
    → a.tracker_ptr ≢ null
    → has a.tracker_ptr cs ≡ false
    → a.op_ptr ≢ null
    → p ≢ a.op_ptr
    → service_cqe_events n s (cqe_of p (pos fd)) a ≡ exited
unfolding service_cqe_events handle handle_cqe_accept handle_new_client config_sqe
accept-full n s xs cs p fd l ls a q full il ne here tne out pne other =
    let (l', g, pushed, _, _) =
      tracked_new s.tracker s.nodes cs a.tracker_ptr a.op_ptr il tne out in
    let s1 = record s { tracker = l'; nodes = g } in
    let op = new_op n a.tracker_ptr (pos fd) in
    elim (dec_lt (length xs) (s.iou).ring_size) [
      | yes one ↦
          let sqe = recv_sqe n a.op_ptr (fresh_con n fd) in
          let (s2, ran, next) = submit-store_op n s1 xs a.op_ptr op sqe q one pne refl in
          let filled : length (xs ++ (sqe ∷ [])) ≡ (s2.iou).ring_size =
            omega (arith, full, one, next.ring_size, length-append xs (sqe ∷ [])) in
          let gone =
            submit-exited n s2 (xs ++ (sqe ∷ [])) next.queue p (accept_op ls l) filled
              (load_op-ok s2 p (accept_op ls l) ne (next.others p other ∙ here)) in
          simp (
            load_op-ok s p (accept_op ls l) ne here,
            not_null a.tracker_ptr tne,
            not_null a.op_ptr pne,
            pushed,
            ran,
            gone,
          )
      | no none_left ↦
          let filled : length xs ≡ (s.iou).ring_size = omega (arith, q.room) in
          let gone =
            submit-exited n (store_op s1 a.op_ptr op) xs (unfold store_op in q) a.op_ptr op
              (unfold store_op in filled) (load_op-store_op s1 a.op_ptr op pne) in
          simp (
            load_op-ok s p (accept_op ls l) ne here,
            not_null a.tracker_ptr tne,
            not_null a.op_ptr pne,
            pushed,
            gone,
          )
    ]
