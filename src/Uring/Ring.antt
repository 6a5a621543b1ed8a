-- ===== src/Uring/Ring.antt =====
-- The rings of code/c/server/io_uring/io_uring_server_utils.c: acquiring, filling and submitting an
-- SQE, and taking a CQE. Heads and tails are free-running `unsigned int`s; the kernel moves the
-- submission head and the completion tail. The program's loads and stores are in program order, as
-- the acquire and release orders of the code ensure towards the kernel.
pub mod Completion
pub mod Kernel
pub mod Masking
pub mod Submission
use linux_modern_io_multiple.Prelude.{
  ℕ, ◌+◌, ◌-◌, ◌%◌, ◌^◌, Bool, true, false, List, [], Option, some, none, get_elem?, set, length,
  ltb, leb, bit_and, not, ◌==◌, if◌then◌else◌,
}
use linux_modern_io_multiple.Prelude.Int.{ℤ, pos, negsuc}
use linux_modern_io_multiple.Prelude.Run.{Run, ok, exited, fault, ◌>>=◌, ◌>>◌, from_cell}
use linux_modern_io_multiple.Links.{Ptr}
use linux_modern_io_multiple.Net.{server_buffer_size}
use linux_modern_io_multiple.Pollfd.{store}
use linux_modern_io_multiple.Time.{is_negative}

pub data OpType : Type 0 where
  accepted_connection close_connection recv_from_client send_to_client timer_expired : OpType

-- `struct client_con`, without the benchmarking member.
pub record ClientCon : Type 0 where
  pub fd : ℤ
  pub busy : Bool
  pub buf_send_len : ℕ
  pub buf : List ℕ

-- The union of `struct iou_op`; a member is read only where it is the one last written.
pub data Info : Type 0 where
  info_accept : (fd : ℤ) → (addrlen : ℕ) → Info
  info_con : ClientCon → Info
  info_timer : (sec nsec : ℕ) → Info

-- `struct iou_op`: `mem_tracker` is 0 for the two on the stack.
pub record IouOp : Type 0 where
  pub op : OpType
  pub info : Info
  pub mem_tracker : Ptr

pub data Opcode : Type 0 where
  nop accept close recv send timeout : Opcode

-- An address inside the operation that the SQE is for.
pub data Addr : Type 0 where
  no_addr : Addr
  accept_addr accept_addrlen con_buf timer_spec : Ptr → Addr

-- `struct io_uring_sqe`, the members that the code writes. All zero after `memset`.
pub record Sqe : Type 0 where
  pub opcode : Opcode
  pub fd : ℤ
  pub addr : Addr
  pub addr2 : Addr
  pub len : ℕ
  pub flags : ℕ
  pub user_data : Ptr

abbrev pub zero_sqe : Sqe
zero_sqe = record {
  opcode = nop;
  fd = pos 0;
  addr = no_addr;
  addr2 = no_addr;
  len = 0;
  flags = 0;
  user_data = 0;
}

-- `struct io_uring_cqe`
pub record Cqe : Type 0 where
  pub user_data : Ptr
  pub res : ℤ

-- `struct iou`: the two rings, as mapped.
pub record Iou : Type 0 where
  pub ring_size : ℕ
  pub sq_head : ℕ
  pub sq_tail : ℕ
  pub sq_mask : ℕ
  pub sq_array : List ℕ
  pub sqes : List Sqe
  pub cq_head : ℕ
  pub cq_tail : ℕ
  pub cq_mask : ℕ
  pub cqes : List Cqe

-- `a - b` in `unsigned int`.
abbrev pub sub_u32 : ℕ → ℕ → ℕ
sub_u32 a b = (a + (2 ^ 32 - b)) % 2 ^ 32

-- `struct iou_acquired_sqe_data` where an SQE was acquired.
pub record Acquired : Type 0 where
  pub tail : ℕ
  pub index : ℕ

-- `none` is the NULL SQE: the ring is full. The acquired SQE is cleared.
unfoldable pub iou_acquire_sqe : Iou → Run (Option Acquired × Iou)
iou_acquire_sqe iou =
    if leb iou.ring_size (sub_u32 iou.sq_tail iou.sq_head)
    then ok (none, iou)
    else (let index = bit_and iou.sq_tail iou.sq_mask in
        store iou.sqes index zero_sqe >>= λ sqes.
        ok (some (record { tail = iou.sq_tail; index = index }), record iou { sqes = sqes }))

unfoldable pub iou_submit_sqe : Iou → Acquired → Run Iou
iou_submit_sqe iou acquired = store iou.sq_array acquired.index acquired.index >>= λ array.
    ok (record iou { sq_array = array; sq_tail = (acquired.tail + 1) % 2 ^ 32 })

-- `SOCK_NONBLOCK`
abbrev pub sock_nonblock : ℕ
sock_nonblock = 0x800

unfoldable pub iou_prep_accept_sqe : Ptr → ℤ → Sqe → Sqe
iou_prep_accept_sqe op fd sqe = record sqe {
  opcode = accept;
  fd = fd;
  addr = accept_addr op;
  addr2 = accept_addrlen op;
  flags = sock_nonblock;
}

unfoldable pub iou_prep_close_sqe : ClientCon → Sqe → Sqe
iou_prep_close_sqe con sqe = record sqe { opcode = close; fd = con.fd }

-- `buffer_size` is `sizeof(con->buf)`.
unfoldable pub iou_prep_recv_sqe : Ptr → ℕ → ClientCon → Sqe → Sqe
iou_prep_recv_sqe op buffer_size con sqe = record sqe {
  opcode = recv;
  fd = con.fd;
  addr = con_buf op;
  len = buffer_size;
  flags = 0;
}

unfoldable pub iou_prep_send_sqe : Ptr → ClientCon → Sqe → Sqe
iou_prep_send_sqe op con sqe = record sqe {
  opcode = send;
  fd = con.fd;
  addr = con_buf op;
  len = con.buf_send_len;
  flags = 0;
}

unfoldable pub iou_prep_timer_sqe : Ptr → Sqe → Sqe
iou_prep_timer_sqe op sqe = record sqe {
  opcode = timeout;
  addr = timer_spec op;
  len = 1;
  flags = 0;
}

-- The `switch` of `iou_config_and_submit`, over the members of the union that its cases read; the
-- number is `DEFAULT_BUFFER_SIZE`, and a connection's buffer has `DEFAULT_SERVER_BUFFER_SIZE` bytes.
unfoldable pub config_sqe : ℕ → Ptr → OpType → Info → Sqe → Run Sqe
unfolding iou_prep_accept_sqe iou_prep_close_sqe iou_prep_recv_sqe iou_prep_send_sqe
    iou_prep_timer_sqe
config_sqe n p accepted_connection (info_accept fd l) sqe = ok (iou_prep_accept_sqe p fd sqe)
config_sqe n p close_connection (info_con con) sqe = ok (iou_prep_close_sqe con sqe)
config_sqe n p recv_from_client (info_con con) sqe =
    ok (iou_prep_recv_sqe p (server_buffer_size n) con sqe)
config_sqe n p send_to_client (info_con con) sqe = ok (iou_prep_send_sqe p con sqe)
config_sqe n p timer_expired (info_timer s ns) sqe = ok (iou_prep_timer_sqe p sqe)
config_sqe n p _ _ sqe = fault

-- `-EBUSY`
abbrev pub ebusy : ℤ
ebusy = negsuc 15

-- `iou_config_and_submit` with the acquired SQE: the user data, the rest by the operation, and the
-- submission.
unfoldable pub submit_acquired : ℕ → Iou → Ptr → IouOp → Option Acquired → Run (ℤ × Iou)
submit_acquired n iou p op none = ok (ebusy, iou)
submit_acquired n iou p op (some acquired) = do
  sqe ← config_sqe n p op.op op.info (record zero_sqe { user_data = p })
  sqes ← store iou.sqes acquired.index sqe
  iou' ← iou_submit_sqe (record iou { sqes = sqes }) acquired
  ok (pos 0, iou')

-- `op` stands at the address `p`, which goes into the SQE as `user_data`.
unfoldable pub iou_config_and_submit : ℕ → Iou → Ptr → IouOp → Run (ℤ × Iou)
iou_config_and_submit n iou p op =
    iou_acquire_sqe iou >>= λ (acquired, iou'). submit_acquired n iou' p op acquired

-- `none` is the NULL of an empty ring; else a copy of the CQE, which is consumed.
unfoldable pub iou_get_cqe : Iou → Run (Option Cqe × Iou)
iou_get_cqe iou =
    if iou.cq_head == iou.cq_tail
    then ok (none, iou)
    else (from_cell (get_elem? iou.cqes (bit_and iou.cq_head iou.cq_mask)) >>= λ cqe.
        ok (some cqe, record iou { cq_head = (iou.cq_head + 1) % 2 ^ 32 }))
