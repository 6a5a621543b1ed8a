-- ===== src/Uring/Loop.antt =====
-- `service_loop` of code/c/server/io_uring/main.c as a state machine: the program turns its loop, and
-- between two turns the kernel takes SQEs, writes into buffers and posts CQEs, in any order. The
-- kernel takes no more SQEs than `io_uring_enter` asked for, unless its own thread polls the ring,
-- and posts one CQE for each SQE that it took.
pub mod Accepting
pub mod Clients
pub mod Closing
pub mod Moves
pub mod Pending
pub mod Progress
pub mod Reach
pub mod Serving
pub mod Steps
pub mod Stopped
pub mod Stored
use linux_modern_io_multiple.Prelude.{
  ℕ, ◌+◌, ◌-◌, ◌<◌, ◌≡◌, ◌⊎◌, true, List, [], ◌∷◌, ◌++◌, Option, some, none, length, ◌≢◌, get_elem?,
  bit_and,
}
use linux_modern_io_multiple.Prelude.Int.{ℤ}
use linux_modern_io_multiple.Prelude.Run.{Run, ok, ◌>>=◌}
use linux_modern_io_multiple.Links.{Ptr}
use linux_modern_io_multiple.Uring.Ring.{
  Iou, Sqe, Cqe, ClientCon, recv_from_client, info_con, iou_get_cqe, sub_u32,
}
use linux_modern_io_multiple.Uring.Ring.Completion.{posts}
use linux_modern_io_multiple.Uring.Ring.Kernel.{took}
use linux_modern_io_multiple.Uring.Server.{
  Server, Allocated, store_op, create_accept_sqe, service_cqe_events,
}
use linux_modern_io_multiple.Uring.Setup.{has_flag, setup_sqpoll}
use linux_modern_io_multiple.Uring.Setup.Entering.{EnterCall, iou_enter_or_wake}

-- The variables of the loop: the server, and `io_events_to_submit`.
pub record Loop : Type 0 where
  pub server : Server
  pub to_submit : ℕ

-- What the calls of one turn answer: the flags of the submission ring that it reads, the return code
-- of `io_uring_enter`, the allocations.
pub record Answers : Type 0 where
  pub sq_flags : ℕ
  pub rc : ℤ
  pub allocated : Allocated

-- Up to the loop: the accept request, whose object is at `accept_req`.
unfoldable pub start_loop : ℕ → Server → Ptr → ℤ → Run Loop
start_loop n s accept_req listening_socket =
    create_accept_sqe n s accept_req listening_socket >>= λ (m, s').
    ok (record { server = s'; to_submit = 0 + m })

-- The body of the loop once a CQE, or none, is got; the calls of `io_uring_enter` with the new state.
unfoldable pub react : ℕ → ℕ → Loop → Answers → Option Cqe → Run (List EnterCall × Loop)
react n setup_flags w a none =
    iou_enter_or_wake setup_flags a.sq_flags w.to_submit a.rc >>= λ calls.
    ok (calls, record w { to_submit = 0 })
react n setup_flags w a (some cqe) = service_cqe_events n w.server cqe a.allocated >>= λ (m, s).
    ok ([], record { server = s; to_submit = w.to_submit + m })

-- One turn of the loop.
unfoldable pub turn : ℕ → ℕ → Loop → Answers → Run (List EnterCall × Loop)
unfolding react
turn n setup_flags w a = iou_get_cqe w.server.iou >>= λ (cqe, iou).
    react n setup_flags (record w { server = record w.server { iou = iou } }) a cqe

-- How many SQEs the calls ask the kernel to take.
abbrev pub asked_by : List EnterCall → ℕ
asked_by [] = 0
asked_by (c ∷ cs) = c.to_submit + asked_by cs

-- The loop and the kernel: how many of the SQEs that `io_uring_enter` asked for, over all calls, it has
-- not taken, and the `user_data` of those that it took and has yet to complete. A call that took fewer
-- than it asked for leaves the rest in that number, so the kernel may take more here than it does.
pub record World : Type 0 where
  pub loop : Loop
  pub asked : ℕ
  pub flight : List Ptr

-- The world as the loop is entered: the kernel has nothing yet.
abbrev pub entered : Loop → World
entered l = record { loop = l; asked = 0; flight = [] }

abbrev pub iou_of : World → Iou
iou_of w = w.loop.server.iou

abbrev pub with_iou : World → Iou → World
with_iou w iou = record w { loop = record w.loop { server = record w.loop.server { iou = iou } } }

-- The program's turn, and what the kernel may do before the next one.
pub data Step (n setup_flags : ℕ) : World → World → Type 0 where
  turned :
      (w : World) (a : Answers) (calls : List EnterCall) (loop : Loop)
      → w.loop.server.nodes a.allocated.tracker_ptr ≡ none
      → w.loop.server.ops a.allocated.op_ptr ≡ none
      → turn n setup_flags w.loop a ≡ ok (calls, loop)
      → Step n setup_flags w
          (record { loop = loop; asked = w.asked + asked_by calls; flight = w.flight })
  takes :
      (w : World) (index : ℕ) (x : Sqe)
      → (iou_of w).sq_head ≢ (iou_of w).sq_tail
      → get_elem? (iou_of w).sq_array (bit_and (iou_of w).sq_head (iou_of w).sq_mask) ≡ some index
      → get_elem? (iou_of w).sqes index ≡ some x
      → (has_flag setup_flags setup_sqpoll ≡ true) ⊎ (0 < w.asked)
      → Step n setup_flags w (record (with_iou w (took (iou_of w))) {
        asked = w.asked - 1;
        flight = x.user_data ∷ w.flight;
      })
  receives :
      (w : World) (p t : Ptr) (con : ClientCon) (bytes : List ℕ)
      → w.loop.server.ops p
        ≡ some (record { op = recv_from_client; info = info_con con; mem_tracker = t })
      → length bytes ≡ length con.buf
      → Step n setup_flags w (record w {
        loop = record w.loop {
          server = store_op w.loop.server p (record {
            op = recv_from_client;
            info = info_con (record con { buf = bytes });
            mem_tracker = t;
          });
        };
      })
  completes :
      (w : World) (us vs : List Ptr) (p : Ptr) (res : ℤ)
      → w.flight ≡ us ++ (p ∷ vs)
      → sub_u32 (iou_of w).cq_tail (iou_of w).cq_head < length (iou_of w).cqes
      → Step n setup_flags w
          (record (with_iou w (posts (iou_of w) (record { user_data = p; res = res }))) {
            flight = us ++ vs;
          })

pub data Reaches (n setup_flags : ℕ) (s : World) : World → Type 0 where
  start : Reaches n setup_flags s s
  next :
      {t u : World} → Reaches n setup_flags s t → Step n setup_flags t u → Reaches n setup_flags s u
