-- ===== src/Uring/Server.antt =====
-- code/c/server/io_uring/main.c, in the build without server side benchmarking. An operation is an
-- object at an address, which travels through the kernel as the `user_data` of an SQE and a CQE;
-- a tracker node leads to each one that the server allocated.
pub mod Cleanup
pub mod Clients
pub mod Counting
pub mod Echo
pub mod Exits
pub mod Frames
pub mod Starting
pub mod Submit
use linux_modern_io_multiple.Prelude.{
  ℕ, zero, suc, ◌+◌, Bool, true, false, List, [], ◌∷◌, ◌++◌, Option, some, none, ltb, replicate,
  ◌==◌, if◌then◌else◌,
}
use linux_modern_io_multiple.Prelude.Int.{ℤ, pos, negsuc, eqb_ℤ}
use linux_modern_io_multiple.Prelude.Run.{
  Run, ok, exited, fault, out_of_fuel, ◌>>=◌, ◌>>◌, assert_zero, assert_nonn, assert_nnull,
  from_cell,
}
use linux_modern_io_multiple.Links.{Ptr, null, node, write, load, free, Ends, ends}
use linux_modern_io_multiple.Net.{server_buffer_size}
use linux_modern_io_multiple.Uring.Tracker.{TrackerHeap, mem_t_push_back, mem_t_remove_node}
use linux_modern_io_multiple.Uring.Ring.{
  OpType, accepted_connection, close_connection, recv_from_client, send_to_client, timer_expired,
  ClientCon, Info, info_accept, info_con, IouOp, Iou, Cqe, iou_config_and_submit,
}

-- The operations that are allocated, with the two on the stack of `service_loop`.
abbrev pub Ops : Type 0
Ops = Ptr → Option IouOp

-- The ring, `mem_allocs_tracker`, the memory, and the descriptors closed so far.
pub record Server : Type 0 where
  pub iou : Iou
  pub tracker : Ends
  pub nodes : TrackerHeap
  pub ops : Ops
  pub closed : List ℤ

-- What the allocations of `handle_new_client` answer, 0 for failure.
pub record Allocated : Type 0 where
  pub tracker_ptr : Ptr
  pub op_ptr : Ptr

unfoldable pub write_op : Ops → Ptr → Option IouOp → Ops
write_op ops p c q = if q == p then c else ops q

unfoldable pub load_op : Server → Ptr → Run IouOp
load_op s p = if p == null then fault else from_cell (s.ops p)

unfoldable pub store_op : Server → Ptr → IouOp → Server
unfolding write_op
store_op s p op = record s { ops = write_op s.ops p (some op) }

-- `info_con`, where it is the member last written.
unfoldable pub con_of : Info → Run ClientCon
con_of (info_con con) = ok con
con_of _ = fault

unfoldable pub free_op : Server → Ptr → Run Server
free_op s p =
    if p == null
    then ok s
    else (from_cell (s.ops p) >>= λ _. ok (record s { ops = write_op s.ops p none }))

unfoldable pub handle_closing_client : Server → Ptr → Run Server
handle_closing_client s p = do
  op ← load_op s p
  (tracker, nodes) ← mem_t_remove_node s.tracker op.mem_tracker s.nodes
  nodes ← free nodes op.mem_tracker
  free_op (record s { tracker = tracker; nodes = nodes }) p

unfoldable pub handle_cqe_close : Server → Ptr → ℤ → Run (ℕ × Server)
unfolding handle_closing_client
handle_cqe_close s p result = do
  assert_zero result
  op ← load_op s p
  con ← con_of op.info
  let closed = record op { info = info_con (record con { fd = negsuc 0 }) }
  s ← handle_closing_client (store_op s p closed) p
  ok (0, s)

-- `-ETIME`
abbrev pub etime : ℤ
etime = negsuc 61

unfoldable pub handle_cqe_timer : Server → Ptr → ℤ → Run (ℕ × Server)
handle_cqe_timer s p result = if eqb_ℤ result etime then ok (0, s) else exited

-- `sizeof(struct sockaddr_in)`
abbrev pub sizeof_sockaddr_in : ℕ
sizeof_sockaddr_in = 16

-- `DEFAULT_BUFFER_SIZE` is a parameter of the build.
module _ (buffer_size : ℕ) where
  -- `rc = iou_config_and_submit(iou, op); io_uring_assert_zero(rc, ...)`
  unfoldable pub submit : Server → Ptr → Run Server
  submit s p = load_op s p >>= λ op. iou_config_and_submit buffer_size s.iou p op >>= λ (rc, iou).
      assert_zero rc >> ok (record s { iou = iou })

  unfoldable pub create_accept_sqe : Server → Ptr → ℤ → Run (ℕ × Server)
  create_accept_sqe s p listening_socket = do
    op ← load_op s p
    let req = record op {
      op = accepted_connection;
      info = info_accept listening_socket sizeof_sockaddr_in;
    }
    s ← submit (store_op s p req) p
    ok (1, s)

  -- `calloc`ed memory for a client, with the members that are then set.
  abbrev pub new_op : Ptr → ℤ → IouOp
  new_op tracker socket = record {
    op = recv_from_client;
    info = info_con (record {
      fd = socket;
      busy = true;
      buf_send_len = 0;
      buf = replicate (server_buffer_size buffer_size) 0;
    });
    mem_tracker = tracker;
  }

  unfoldable pub handle_new_client : Server → ℤ → Allocated → Run Server
  handle_new_client s socket a = do
    assert_nnull a.tracker_ptr
    assert_nnull a.op_ptr
    let nodes = write s.nodes a.tracker_ptr (some (node a.op_ptr null null))
    (tracker, nodes) ← mem_t_push_back s.tracker a.tracker_ptr nodes
    let s = record s { tracker = tracker; nodes = nodes }
    submit (store_op s a.op_ptr (new_op a.tracker_ptr socket)) a.op_ptr

  unfoldable pub prep_close_client_req : Server → Ptr → Run (ℕ × Server)
  prep_close_client_req s p = do
    op ← load_op s p
    s ← submit (store_op s p (record op { op = close_connection })) p
    ok (1, s)

  unfoldable pub handle_cqe_accept : Server → Ptr → ℤ → Allocated → Run (ℕ × Server)
  unfolding handle_new_client submit
  handle_cqe_accept s p result a = do
    client_socket ← assert_nonn result
    s ← handle_new_client s (pos client_socket) a
    s ← submit s p
    ok (2, s)

  -- The operation serves the send once a whole buffer is read.
  abbrev pub sending : IouOp → ClientCon → ℕ → IouOp
  sending op con read_bytes = record op {
    op = send_to_client;
    info = info_con (record con { buf_send_len = read_bytes; busy = true });
  }

  unfoldable pub handle_cqe_recv : Server → Ptr → ℤ → Run (ℕ × Server)
  handle_cqe_recv s p result = load_op s p >>= λ op. con_of op.info >>= λ con.
      let idle = record op { info = info_con (record con { busy = false }) } in
      assert_nonn result >>= λ read_bytes.
      if read_bytes == 0
      then prep_close_client_req (store_op s p idle) p
      else (if ltb buffer_size read_bytes
          then exited
          else (if ltb read_bytes buffer_size
              then exited
              else (submit (store_op s p (sending op con read_bytes)) p >>= λ s'. ok (1, s'))))

  abbrev pub receiving : IouOp → ClientCon → IouOp
  receiving op con = record op {
    op = recv_from_client;
    info = info_con (record con { busy = true });
  }

  unfoldable pub handle_cqe_send : Server → Ptr → ℤ → Run (ℕ × Server)
  handle_cqe_send s p result = load_op s p >>= λ op. con_of op.info >>= λ con.
      assert_nonn result >>= λ sent_bytes.
      if ltb sent_bytes buffer_size
      then exited
      else (submit (store_op s p (receiving op con)) p >>= λ s'. ok (1, s'))

  -- The handler of an operation's kind.
  unfoldable pub handle : Server → Ptr → ℤ → Allocated → OpType → Run (ℕ × Server)
  unfolding handle_cqe_accept handle_cqe_close handle_cqe_recv handle_cqe_send handle_cqe_timer
  handle s p res a accepted_connection = handle_cqe_accept s p res a
  handle s p res a close_connection = handle_cqe_close s p res
  handle s p res a recv_from_client = handle_cqe_recv s p res
  handle s p res a send_to_client = handle_cqe_send s p res
  handle s p res a timer_expired = handle_cqe_timer s p res

  -- The number is that of the SQEs submitted.
  unfoldable pub service_cqe_events : Server → Cqe → Allocated → Run (ℕ × Server)
  unfolding handle
  service_cqe_events s cqe a =
      load_op s cqe.user_data >>= λ op. handle s cqe.user_data cqe.res a op.op

-- The loop of `do_service_loop_cleanup`; `close` is what the system call answers.
unfoldable pub close_tracked : (ℤ → ℤ) → ℕ → Server → Ptr → Run Server
close_tracked close zero s tracker = out_of_fuel
close_tracked close (suc fuel) s tracker = if tracker == null then ok s else do
  n ← load s.nodes tracker
  op ← load_op s n.payload
  con ← con_of op.info
  assert_zero (close con.fd)
  let s = record s { closed = s.closed ++ (con.fd ∷ []) }
  s ← free_op s n.payload
  nodes ← free s.nodes tracker
  close_tracked close fuel (record s { nodes = nodes }) n.next

-- After `iou_free`, which is not part of this state.
unfoldable pub do_service_loop_cleanup : (ℤ → ℤ) → ℕ → Server → Run Server
do_service_loop_cleanup close fuel s =
    close_tracked close fuel s s.tracker.head >>= λ s'. ok (record s' { tracker = ends null null })
