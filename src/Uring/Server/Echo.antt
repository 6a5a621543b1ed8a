-- ===== src/Uring/Server/Echo.antt =====
-- What the completions of one client lead to: the echo is a chain of SQEs on the same operation.
use linux_modern_io_multiple.Prelude.{
  ℕ, ◌<◌, ◌≡◌, ◌≢◌, ◌≤◌, ap, ◌∙◌, Bool-cases, inl, inr, refl, arith, List, [], ◌∷◌, ◌++◌, length,
  true, false, ltb, ◌==◌, some,
}
use linux_modern_io_multiple.Prelude.Int.{ℤ, pos, negsuc}
use linux_modern_io_multiple.Prelude.Run.{ok, exited}
use linux_modern_io_multiple.Links.{Ptr, null}
use linux_modern_io_multiple.Links.Chain.{not_null, eq_self}
use linux_modern_io_multiple.Uring.Ring.{
  Sqe, Cqe, IouOp, OpType, close_connection, recv_from_client, send_to_client, ClientCon, info_con,
  config_sqe, zero_sqe, Opcode, Addr,
}
use linux_modern_io_multiple.Uring.Ring.Completion.{SameCompletions}
use linux_modern_io_multiple.Uring.Ring.Submission.{IsQueue}
use linux_modern_io_multiple.Net.{server_buffer_size}
use linux_modern_io_multiple.Uring.Server.{
  Server, Allocated, submit, load_op, store_op, write_op, con_of, prep_close_client_req,
  handle_cqe_recv, handle_cqe_send, handle, service_cqe_events,
}
use linux_modern_io_multiple.Uring.Server.Submit.{submit-append, submit-exited}

-- An operation of a client: what it is for, the connection, the tracker node.
abbrev pub client_op : OpType → ClientCon → Ptr → IouOp
client_op kind con tracker = record { op = kind; info = info_con con; mem_tracker = tracker }

pub load_op-ok :
    (s : Server) (p : Ptr) (op : IouOp) → p ≢ null → s.ops p ≡ some op → load_op s p ≡ ok op
unfolding load_op
load_op-ok s p op ne e = simp (not_null p ne, e)

pub load_op-store_op :
    (s : Server) (p : Ptr) (op : IouOp) → p ≢ null → load_op (store_op s p op) p ≡ ok op
unfolding load_op store_op write_op
load_op-store_op s p op ne = simp (not_null p ne, eq_self p)

store_op-other : (s : Server) (p q : Ptr) (op : IouOp) → q ≢ p → (store_op s p op).ops q ≡ s.ops q
unfolding store_op write_op
store_op-other s p q op other = ground arith

-- The SQE of an operation in the new queue, and the operation in memory.
pub record Next (s : Server) (xs : List Sqe) (p : Ptr) (op : IouOp) (sqe : Sqe) (s' : Server)
    : Type 0 where
  pub queue : IsQueue s'.iou (xs ++ (sqe ∷ []))
  pub here : s'.ops p ≡ some op
  pub others : (q : Ptr) → q ≢ p → s'.ops q ≡ s.ops q
  pub ring_size : (s'.iou).ring_size ≡ (s.iou).ring_size
  pub completions : SameCompletions s'.iou s.iou
  pub tracker : s'.tracker ≡ s.tracker
  pub nodes : s'.nodes ≡ s.nodes

-- An operation that is stored and submitted.
pub submit-store_op :
    (n : ℕ) (s : Server) (xs : List Sqe) (p : Ptr) (op : IouOp) (sqe : Sqe)
    → IsQueue s.iou xs
    → length xs < (s.iou).ring_size
    → p ≢ null
    → config_sqe n p op.op op.info (record zero_sqe { user_data = p }) ≡ ok sqe
    → (s' : Server) × (submit n (store_op s p op) p ≡ ok s') × Next s xs p op sqe s'
unfolding store_op write_op
submit-store_op n s xs p op sqe q room ne e =
    let (iou', ran, q', size, cq) =
      submit-append n (store_op s p op) xs q p op sqe room (load_op-store_op s p op ne) e in
    (
      record (store_op s p op) { iou = iou' },
      ran,
      record {
        queue = q';
        here = rw (eq_self p);
        others = λ r other. ground arith;
        ring_size = size;
        completions = cq;
        tracker = refl;
        nodes = refl;
      },
    )

abbrev pub send_sqe : ℕ → Ptr → ClientCon → Sqe
send_sqe n p con = record zero_sqe {
  opcode = Opcode.send;
  fd = con.fd;
  addr = Addr.con_buf p;
  len = n;
  user_data = p;
}

abbrev pub recv_sqe : ℕ → Ptr → ClientCon → Sqe
recv_sqe n p con = record zero_sqe {
  opcode = Opcode.recv;
  fd = con.fd;
  addr = Addr.con_buf p;
  len = server_buffer_size n;
  user_data = p;
}

abbrev pub close_sqe : Ptr → ClientCon → Sqe
close_sqe p con = record zero_sqe { opcode = Opcode.close; fd = con.fd; user_data = p }

abbrev pub cqe_of : Ptr → ℤ → Cqe
cqe_of p res = record { user_data = p; res = res }

module _ (n : ℕ) (s : Server) (xs : List Sqe) (p : Ptr) (con : ClientCon) (t : Ptr)
    (a : Allocated) where
  -- While the ring has room, a message of the full size is answered by the SQE that sends the buffer
  -- it was read into back
  -- over the same connection, all of it; the buffer is not touched, nor is any other operation.
  pub service_cqe_events-echo :
      IsQueue s.iou xs
      → length xs < (s.iou).ring_size
      → p ≢ null
      → 0 < n
      → s.ops p ≡ some (client_op recv_from_client con t)
      → (s' : Server) × (service_cqe_events n s (cqe_of p (pos n)) a ≡ ok (1, s'))
        × Next s xs p
            (client_op send_to_client (record con { busy = true; buf_send_len = n }) t)
            (send_sqe n p con)
            s'
  unfolding service_cqe_events handle handle_cqe_recv con_of config_sqe
  service_cqe_events-echo q room ne some_bytes e =
      let con' = record con { busy = true; buf_send_len = n } in
      let (s', ran, next) =
        submit-store_op n s xs p (client_op send_to_client con' t) (send_sqe n p con) q room ne
          refl in
      (
        s',
        simp (load_op-ok s p (client_op recv_from_client con t) ne e, not_zero, irrefl, ran),
        next,
      )
    where
      not_zero : (n == 0) ≡ false
      not_zero = ground arith

      irrefl : ltb n n ≡ false
      irrefl = ground arith

  -- While the ring has room, the SQE that closes the descriptor of a client that hung up follows.
  pub service_cqe_events-hangup :
      IsQueue s.iou xs
      → length xs < (s.iou).ring_size
      → p ≢ null
      → s.ops p ≡ some (client_op recv_from_client con t)
      → (s' : Server) × (service_cqe_events n s (cqe_of p (pos 0)) a ≡ ok (1, s'))
        × Next s xs p
            (client_op close_connection (record con { busy = false }) t)
            (close_sqe p con)
            s'
  unfolding service_cqe_events handle handle_cqe_recv con_of config_sqe prep_close_client_req
      store_op
  service_cqe_events-hangup q room ne e =
      let idle = client_op recv_from_client (record con { busy = false }) t in
      let closing = client_op close_connection (record con { busy = false }) t in
      let (s', ran, next) =
        submit-store_op n (store_op s p idle) xs p closing (close_sqe p con) q room ne refl in
      (
        s',
        simp (
          load_op-ok s p (client_op recv_from_client con t) ne e,
          load_op-store_op s p idle ne,
          ran,
        ),
        record {
          queue = next.queue;
          here = next.here;
          others = λ r other. next.others r other ∙ store_op-other s p r idle other;
          ring_size = next.ring_size;
          completions = next.completions;
          tracker = next.tracker;
          nodes = next.nodes;
        },
      )

  -- A message that is cut short, one that is longer than the buffer, and an error end the process.
  pub service_cqe_events-recv_exited :
      (res : ℤ)
      → p ≢ null
      → s.ops p ≡ some (client_op recv_from_client con t)
      → res ≢ pos 0
      → res ≢ pos n
      → service_cqe_events n s (cqe_of p res) a ≡ exited
  unfolding service_cqe_events handle handle_cqe_recv con_of
  service_cqe_events-recv_exited (negsuc m) ne e some_bytes other =
      simp (load_op-ok s p (client_op recv_from_client con t) ne e)
  service_cqe_events-recv_exited (pos m) ne e some_bytes other =
      let not_zero : (m == 0) ≡ false = ground (arith, m0) in
      elim (Bool-cases (ltb n m)) [
        | inl long ↦ simp (load_op-ok s p (client_op recv_from_client con t) ne e, not_zero, long)
        | inr not_long ↦
            let short : ltb m n ≡ true = ground (arith, mn) in
            simp (load_op-ok s p (client_op recv_from_client con t) ne e, not_zero, not_long, short)
      ]
    where
      m0 : m ≢ 0
      m0 k = some_bytes (ap (λ i. pos i) k)

      mn : m ≢ n
      mn k = other (ap (λ i. pos i) k)

  -- While the ring has room, once the whole message is sent, the SQE for the next message follows, which asks for no more
  -- than the buffer holds: a message and eight bytes.
  pub service_cqe_events-sent :
      (m : ℕ)
      → IsQueue s.iou xs
      → length xs < (s.iou).ring_size
      → p ≢ null
      → n ≤ m
      → s.ops p ≡ some (client_op send_to_client con t)
      → (s' : Server) × (service_cqe_events n s (cqe_of p (pos m)) a ≡ ok (1, s'))
        × Next s xs p
            (client_op recv_from_client (record con { busy = true }) t)
            (recv_sqe n p con)
            s'
  unfolding service_cqe_events handle handle_cqe_send con_of config_sqe
  service_cqe_events-sent m q room ne whole e =
      let op = client_op recv_from_client (record con { busy = true }) t in
      let (s', ran, next) = submit-store_op n s xs p op (recv_sqe n p con) q room ne refl in
      (s', simp (load_op-ok s p (client_op send_to_client con t) ne e, not_short, ran), next)
    where
      not_short : ltb m n ≡ false
      not_short = ground arith

  -- A message that arrives while the ring is full ends the process.
  pub service_cqe_events-full :
      IsQueue s.iou xs
      → length xs ≡ (s.iou).ring_size
      → p ≢ null
      → 0 < n
      → s.ops p ≡ some (client_op recv_from_client con t)
      → service_cqe_events n s (cqe_of p (pos n)) a ≡ exited
  unfolding service_cqe_events handle handle_cqe_recv con_of store_op
  service_cqe_events-full q full ne some_bytes e =
      let op = client_op send_to_client (record con { busy = true; buf_send_len = n }) t in
      simp (
        load_op-ok s p (client_op recv_from_client con t) ne e,
        not_zero,
        irrefl,
        submit-exited n (store_op s p op) xs q p op full (load_op-store_op s p op ne),
      )
    where
      not_zero : (n == 0) ≡ false
      not_zero = ground arith

      irrefl : ltb n n ≡ false
      irrefl = ground arith
