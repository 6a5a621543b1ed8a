-- ===== src/Tests/Uring/Busy.antt =====
-- The loop of the io_uring server with two clients.
use linux_modern_io_multiple.Prelude.{◌+◌, ◌≡◌, ◌≢◌, refl, arith, List, [], ◌∷◌, some}
use linux_modern_io_multiple.Prelude.Int.{pos}
use linux_modern_io_multiple.Prelude.Run.{ok}
use linux_modern_io_multiple.Links.{Ptr}
use linux_modern_io_multiple.Uring.Ring.{Iou, Cqe, zero_sqe, recv_from_client, send_to_client}
use linux_modern_io_multiple.Uring.Ring.Completion.{IsPosted}
use linux_modern_io_multiple.Uring.Ring.Submission.{IsQueue}
use linux_modern_io_multiple.Uring.Server.Echo.{client_op, cqe_of, send_sqe}
use linux_modern_io_multiple.Uring.Loop.{Loop, World, turn}
use linux_modern_io_multiple.Uring.Loop.Clients.{IsClient}
use linux_modern_io_multiple.Uring.Loop.Pending.{hit, hit_zero}
use linux_modern_io_multiple.Uring.Loop.Progress.{turn-echoes}
use linux_modern_io_multiple.Uring.Loop.Stored.{Alive}
use linux_modern_io_multiple.Tests.Uring.{con, waiting, four_slots}
use linux_modern_io_multiple.Tests.Uring.Servers.{server, cells, nodes-IsList}
use linux_modern_io_multiple.Tests.Uring.Loops.{eight_slots, nothing, queued, given}

-- With two clients: the second one's receive is queued, and the CQE is the only one.
abbrev busy : Cqe → Iou
busy x = record queued {
  sqes = zero_sqe ∷ zero_sqe ∷ zero_sqe ∷ waiting ∷ [];
  cq_tail = 8;
  cqes = nothing ∷ nothing ∷ nothing ∷ nothing ∷ nothing ∷ nothing ∷ nothing ∷ x ∷ [];
}

abbrev pub busy_world : Cqe → List Ptr → World
busy_world x flight = record {
  loop = record { server = server (busy x) recv_from_client; to_submit = 1 };
  asked = 0;
  flight = flight;
}

module _ (x : Cqe) where
  busy-IsQueue : IsQueue (busy x) (waiting ∷ [])
  busy-IsQueue = record {
    ring = four_slots;
    array = refl;
    sqes = refl;
    head = omega arith;
    tail = refl;
    room = omega arith;
    queued = (refl, refl, tt);
  }

  busy-IsPosted : IsPosted (busy x) (x ∷ [])
  busy-IsPosted = record {
    size = 8;
    ring = eight_slots;
    head = omega arith;
    tail = refl;
    cqes = refl;
    room = omega arith;
    posted = (refl, tt);
  }

-- One operation for each client and the accept: in the queue, with the kernel, and completed.
pub busy-Alive :
    (x : Cqe) (p : Ptr)
    → ((q : Ptr) → hit q 300 + (hit q p + hit q x.user_data) ≡ hit q 100 + (hit q 200 + hit q 300))
    → Alive 100 (pos 3) (busy_world x (p ∷ [])).loop.server (p ∷ []) (waiting ∷ []) (x ∷ []) cells
busy-Alive x p once = record {
  queue = busy-IsQueue x;
  posted = busy-IsPosted x;
  tracked = nodes-IsList;
  clients = (
    omega arith,
    IsClient.receives (con 6) refl,
    (omega arith, IsClient.receives (con 7) refl, tt),
  );
  nonnull = omega arith;
  addrlen = 16;
  accepting = refl;
  pending = λ q. omega (arith, once q);
  total = refl;
  ops_owned = λ q free. ground (
    arith,
    hit_zero q 100 (omega arith),
    hit_zero q 200 (omega arith),
    hit_zero q 300 (omega arith),
  );
  nodes_owned = λ t out. ground arith;
}

turn-echoes_example :
    (loop : Loop) × (turn 3 0 (busy_world (cqe_of 200 (pos 3)) (100 ∷ [])).loop given
      ≡ ok ([], loop))
    × (loop.server.ops 200 ≡ some (client_op send_to_client (con 6) 10))
    × (loop.to_submit ≡ 2)
    × IsQueue loop.server.iou (waiting ∷ send_sqe 3 200 (con 6) ∷ [])
    × ((q : Ptr)
        → q ≢ 200
        → loop.server.ops q ≡ (busy_world (cqe_of 200 (pos 3)) (100 ∷ [])).loop.server.ops q)
    × (loop.server.tracker ≡ (busy_world (cqe_of 200 (pos 3)) (100 ∷ [])).loop.server.tracker)
    × (loop.server.nodes ≡ (busy_world (cqe_of 200 (pos 3)) (100 ∷ [])).loop.server.nodes)
turn-echoes_example =
    turn-echoes 3 0 100 (pos 3) (busy_world (cqe_of 200 (pos 3)) (100 ∷ [])) given (waiting ∷ [])
      200 10 (con 6) [] cells (busy-Alive (cqe_of 200 (pos 3)) 100 (λ q. omega arith)) (omega arith)
      (omega arith) (omega arith) refl
