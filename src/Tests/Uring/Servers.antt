-- ===== src/Tests/Uring/Servers.antt =====
-- The io_uring server with two clients and the pending accept.
use linux_modern_io_multiple.Prelude.{
  ◌≡◌, ◌≢◌, refl, arith, [], ◌∷◌, ◌++◌, ◌==◌, if◌then◌else◌, some, none,
}
use linux_modern_io_multiple.Prelude.Int.{pos}
use linux_modern_io_multiple.Prelude.Run.{ok, exited}
use linux_modern_io_multiple.Links.{Ptr, null, node, ends}
use linux_modern_io_multiple.Links.Chain.{Cells, IsList, SameOutside}
use linux_modern_io_multiple.Uring.Tracker.{TrackerHeap}
use linux_modern_io_multiple.Uring.Ring.{Iou, OpType, recv_from_client}
use linux_modern_io_multiple.Uring.Ring.Completion.{SameCompletions}
use linux_modern_io_multiple.Uring.Ring.Submission.{IsQueue}
use linux_modern_io_multiple.Uring.Server.{Server, Allocated, service_cqe_events, new_op}
use linux_modern_io_multiple.Uring.Server.Echo.{
  client_op, recv_sqe, cqe_of, service_cqe_events-recv_exited,
}
use linux_modern_io_multiple.Uring.Server.Clients.{
  accept_op, accept_sqe, fresh_con, service_cqe_events-accepted,
}
use linux_modern_io_multiple.Tests.Uring.{con, waiting, one_queued, one_queued-IsQueue}

abbrev nodes : TrackerHeap
nodes p =
    if p == 10 then some (node 200 20 null) else (if p == 20 then some (node 300 null 10) else none)

-- The operation of the first client is of this kind.
abbrev pub server : Iou → OpType → Server
server iou kind = record {
  iou = iou;
  tracker = ends 10 20;
  nodes = nodes;
  ops = λ p.
      if p == 100
      then some (accept_op (pos 3) 16)
      else (if p == 200
          then some (client_op kind (con 6) 10)
          else (if p == 300 then some (client_op recv_from_client (con 7) 20) else none));
  closed = [];
}

abbrev pub cells : Cells Ptr
cells = (10, 200) ∷ (20, 300) ∷ []

pub nodes-IsList : IsList (ends 10 20) nodes cells
nodes-IsList = record {
  head = refl;
  tail = refl;
  chain = (omega arith, refl, refl, (omega arith, refl, refl, tt));
}

abbrev pub given : Allocated
given = record { tracker_ptr = 30; op_ptr = 400 }

two_not_zero : pos 2 ≢ pos 0
two_not_zero e = cc

two_not_three : pos 2 ≢ pos 3
two_not_three e = cc

abbrev pub now : OpType → Server
now kind = server one_queued kind

service_cqe_events-recv_exited_example :
    service_cqe_events 3 (now recv_from_client) (cqe_of 200 (pos 2)) given ≡ exited
service_cqe_events-recv_exited_example =
    service_cqe_events-recv_exited 3 (now recv_from_client) (waiting ∷ []) 200 (con 6) 10 given
      (pos 2) (omega arith) refl two_not_zero two_not_three

service_cqe_events-accepted_example :
    (s' : Server) × (service_cqe_events 3 (now recv_from_client) (cqe_of 100 (pos 8)) given
      ≡ ok (2, s'))
    × IsQueue s'.iou (waiting ∷ recv_sqe 3 400 (fresh_con 3 8) ∷ accept_sqe 100 (pos 3) ∷ [])
    × IsList s'.tracker s'.nodes (cells ++ ((30, 400) ∷ []))
    × (s'.ops 400 ≡ some (new_op 3 30 (pos 8)))
    × ((q : Ptr) → q ≢ 400 → s'.ops q ≡ (now recv_from_client).ops q)
    × SameCompletions s'.iou one_queued
    × SameOutside (cells ++ ((30, 400) ∷ [])) nodes s'.nodes
service_cqe_events-accepted_example =
    service_cqe_events-accepted 3 (now recv_from_client) (waiting ∷ []) cells 100 8 16 (pos 3) given
      one_queued-IsQueue (omega arith) nodes-IsList (omega arith) refl (omega arith) refl
      (omega arith) (omega arith)
