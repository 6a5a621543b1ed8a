-- ===== src/Tests/Uring/Whole.antt =====
-- The io_uring server from its start to its end, with one accepted connection in between.
use linux_modern_io_multiple.Prelude.{
  suc, ◌≡◌, ◌≢◌, refl, arith, false, List, [], ◌∷◌, ◌++◌, length, some, none, inr, if◌then◌else◌,
}
use linux_modern_io_multiple.Prelude.Int.{ℤ, pos}
use linux_modern_io_multiple.Prelude.Run.{Run, ok, exited}
use linux_modern_io_multiple.Links.{Ptr, ends}
use linux_modern_io_multiple.Links.Chain.{Cells, IsList}
use linux_modern_io_multiple.Net.{
  SetupAnswer, create_ipv4_listening_socket, register_signal_handler,
}
use linux_modern_io_multiple.Poll.Quiet.{masked}
use linux_modern_io_multiple.Uring.Ring.{
  config_sqe, iou_config_and_submit, iou_acquire_sqe, submit_acquired, iou_submit_sqe, iou_get_cqe,
}
use linux_modern_io_multiple.Uring.Ring.Completion.{posts}
use linux_modern_io_multiple.Uring.Ring.Kernel.{took}
use linux_modern_io_multiple.Uring.Setup.{
  iou_create, iou_config_params, iou_check_features, iou_mmap_rings,
}
use linux_modern_io_multiple.Uring.Setup.Entering.{EnterCall, iou_enter_or_wake}
use linux_modern_io_multiple.Uring.Setup.Mapping.{freed}
use linux_modern_io_multiple.Uring.Server.{
  Server, write_op, store_op, load_op, submit, create_accept_sqe, service_cqe_events, handle,
  handle_cqe_accept, handle_new_client,
}
use linux_modern_io_multiple.Uring.Tracker.{mem_t_create, mem_t_push_back}
use linux_modern_io_multiple.Uring.Server.Cleanup.{Tracks, all_close}
use linux_modern_io_multiple.Uring.Server.Clients.{accept_op, accept_sqe}
use linux_modern_io_multiple.Uring.Server.Starting.{create_signal_masks}
use linux_modern_io_multiple.Uring.Loop.{
  Loop, World, Step, turned, takes, completes, Reaches, start, next, start_loop, turn, react,
  entered,
}
use linux_modern_io_multiple.Uring.Main.{
  Before, Running, no_clients, enter_service_loop, begin, finish, finish-begin,
}
use linux_modern_io_multiple.Tests.Uring.Rings.{answers, answered, polled, rings, regions}
use linux_modern_io_multiple.Tests.Uring.Loops.{
  empty, empty-IsQueue, empty-IsPosted, queued, accepted, given,
}

abbrev opened : SetupAnswer
opened = record { socket = pos 3; fcntl = pos 0; bind = pos 0; listen = pos 0 }

abbrev calls : Before
calls = record {
  sigaction = pos 0;
  socket = opened;
  io_uring_setup = polled;
  mmap = answers;
  masks = masked;
}

abbrev loop : Loop
loop = record {
  server = record (no_clients queued 100) {
    ops = write_op (no_clients empty 100).ops 100 (some (accept_op (pos 3) 16));
  };
  to_submit = 1;
}

abbrev running : Running
running = record { listening_socket = 3; mapped = rings; regions = regions; loop = loop }

began : begin 3 2112 4 false (λ m. empty) 100 calls ≡ ok running
unfolding begin enter_service_loop register_signal_handler create_ipv4_listening_socket
    create_signal_masks iou_create iou_config_params iou_check_features iou_mmap_rings start_loop
    create_accept_sqe load_op store_op submit iou_config_and_submit iou_acquire_sqe submit_acquired
    config_sqe iou_submit_sqe write_op
began = refl

-- The loop enters the kernel, which takes the accept and completes it with descriptor 8.
abbrev after : Loop
after = record loop { to_submit = 0 }

abbrev waiting_world : World
waiting_world = record { loop = after; asked = 1; flight = [] }

abbrev taken_world : World
taken_world = record {
  loop = record after { server = record after.server { iou = record queued { sq_head = 0 } } };
  asked = 0;
  flight = 100 ∷ [];
}

abbrev done_world : World
done_world = record {
  loop = record after { server = record after.server { iou = accepted } };
  asked = 0;
  flight = [];
}

waits : Step 3 4352 (entered loop) waiting_world
unfolding turn react iou_get_cqe iou_enter_or_wake write_op
waits =
    turned (entered loop) given (record { to_submit = 1; min_complete = 1; flags = 1 } ∷ []) after
      refl refl refl

-- The loop that a turn returned.
loop_of : Run (List EnterCall × Loop) → Loop → Loop
loop_of (ok (_, l)) other = l
loop_of _ other = other

unfoldable connected : Loop
unfolding loop_of turn react iou_get_cqe service_cqe_events handle handle_cqe_accept
    handle_new_client load_op store_op submit iou_config_and_submit iou_acquire_sqe submit_acquired
    config_sqe iou_submit_sqe write_op mem_t_push_back mem_t_create
connected = loop_of (turn 3 4352 done_world.loop given) after

-- The loop accepts the connection.
connects : Step 3 4352 done_world (entered connected)
unfolding connected loop_of turn react iou_get_cqe service_cqe_events handle handle_cqe_accept
    handle_new_client load_op store_op submit iou_config_and_submit iou_acquire_sqe submit_acquired
    config_sqe iou_submit_sqe write_op mem_t_push_back mem_t_create
connects = turned done_world given [] connected refl refl refl

reached : Reaches 3 4352 (entered loop) (entered connected)
unfolding took posts
reached =
    next
      (next
        (next (next start waits) (
          takes waiting_world 3 (accept_sqe 100 (pos 3)) (omega arith) refl refl
            (inr (omega arith))))
        (completes taken_world [] [] 100 (pos 8) refl (omega arith)))
      connects

finish-begin_example :
    (cs : Cells Ptr) × (fds : List ℤ) × IsList connected.server.tracker connected.server.nodes cs
    × Tracks connected.server.ops cs fds
    × (s' : Server) × (finish (λ fd. pos 0) (suc (length cs)) freed running connected.server ≡ (
        if all_close (λ fd. pos 0) (fds ++ (pos 3 ∷ [])) then ok (regions, pos 5, s') else exited))
    × (s'.closed ≡ connected.server.closed ++ (fds ++ (pos 3 ∷ [])))
    × ((t : Ptr) → s'.nodes t ≡ none)
    × ((p : Ptr) → p ≢ 100 → s'.ops p ≡ none)
    × (s'.tracker ≡ ends 0 0)
unfolding iou_config_params
finish-begin_example =
    finish-begin 3 2112 4 false (λ m. empty) 100 calls running (entered connected) (λ fd. pos 0)
      began empty-IsQueue empty-IsPosted (omega arith) answered reached
