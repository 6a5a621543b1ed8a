-- ===== src/Uring/Loop/Stored.antt =====
-- What holds of the server between any two events: the operations that are outstanding, in a ring or
-- with the kernel, are those of the clients and the accept request, each once, and no other memory is
-- allocated.
use linux_modern_io_multiple.Prelude.{
  ℕ, suc, ◌+◌, ◌≡◌, ◌≢◌, ◌∙◌, refl, arith, List, [], ◌∷◌, ◌++◌, length, length-append, some, none,
  false, subst, ◌⊎◌,
}
use linux_modern_io_multiple.Prelude.Int.{ℤ}
use linux_modern_io_multiple.Prelude.Run.{Run, ok, exited}
use linux_modern_io_multiple.Links.{Ptr, null}
use linux_modern_io_multiple.Links.Chain.{Cells, IsList, has}
use linux_modern_io_multiple.Uring.Ring.{Sqe, Cqe, IouOp}
use linux_modern_io_multiple.Uring.Ring.Completion.{IsPosted, IsPosted-same}
use linux_modern_io_multiple.Uring.Ring.Submission.{IsQueue}
use linux_modern_io_multiple.Uring.Server.{Server}
use linux_modern_io_multiple.Uring.Server.Clients.{accept_op}
use linux_modern_io_multiple.Uring.Server.Echo.{Next}
use linux_modern_io_multiple.Uring.Loop.Clients.{
  IsClient, AreClients, IsClient-stored, IsClient-not_accept, AreClients-along,
}
use linux_modern_io_multiple.Uring.Loop.Pending.{
  count, count_sqes, count_cqes, count_clients, hit, count_sqes-append,
}

-- The submission queue, the kernel's operations, the completions posted and the clients tracked.
pub record Alive (acc : Ptr) (ls : ℤ) (s : Server) (flight : List Ptr) (xs : List Sqe)
    (ps : List Cqe) (cs : Cells Ptr) : Type 0 where
  pub queue : IsQueue s.iou xs
  pub posted : IsPosted s.iou ps
  pub tracked : IsList s.tracker s.nodes cs
  pub clients : AreClients s.ops cs
  pub nonnull : acc ≢ null
  pub addrlen : ℕ
  pub accepting : s.ops acc ≡ some (accept_op ls addrlen)
  pub pending :
      (p : Ptr)
      → count_sqes p xs + (count p flight + count_cqes p ps) ≡ hit p acc + count_clients p cs
  pub total : length xs + (length flight + length ps) ≡ suc (length cs)
  pub ops_owned : (p : Ptr) → hit p acc + count_clients p cs ≡ 0 → s.ops p ≡ none
  pub nodes_owned : (t : Ptr) → has t cs ≡ false → s.nodes t ≡ none

-- A handler returned, and all is well after it.
pub record Continued (acc : Ptr) (ls : ℤ) (flight : List Ptr) (xs : List Sqe) (ps : List Cqe)
    (run : Run (ℕ × Server)) : Type 0 where
  pub server : Server
  pub sqes : List Sqe
  pub cells : Cells Ptr
  pub ran : run ≡ ok (length sqes, server)
  pub alive : Alive acc ls server flight (xs ++ sqes) ps cells

abbrev pub Handled : Ptr → ℤ → List Ptr → List Sqe → List Cqe → Run (ℕ × Server) → Type 0
Handled acc ls flight xs ps run = (run ≡ exited) ⊎ Continued acc ls flight xs ps run

-- A client's operation that is submitted again goes from the completions to the submission queue.
pub Alive-Next :
    (acc : Ptr) (ls : ℤ) (s s' : Server) (flight : List Ptr) (xs : List Sqe) (ps : List Cqe)
    (cs : Cells Ptr) (p t : Ptr) (old op : IouOp) (sqe : Sqe)
    → Alive acc ls s (p ∷ flight) xs ps cs
    → s.ops p ≡ some old
    → old.mem_tracker ≡ t
    → IsClient s.ops t p
    → IsClient s'.ops t p
    → sqe.user_data ≡ p
    → Next s xs p op sqe s'
    → Alive acc ls s' flight (xs ++ (sqe ∷ [])) ps cs
Alive-Next acc ls s s' flight xs ps cs p t old op sqe alive here tracked was is user next = record {
  queue = next.queue;
  posted = IsPosted-same s'.iou s.iou ps next.completions alive.posted;
  tracked = rw (next.tracker, next.nodes) alive.tracked;
  clients =
      AreClients-along s.ops s'.ops cs
        (λ u q _. IsClient-stored s.ops s'.ops t p u q old here tracked is next.others)
        alive.clients;
  nonnull = alive.nonnull;
  addrlen = alive.addrlen;
  accepting =
      next.others acc (IsClient-not_accept s.ops t p acc ls alive.addrlen was alive.accepting)
      ∙ alive.accepting;
  pending = λ q. counted q;
  total = omega (arith, alive.total, length-append xs (sqe ∷ []));
  ops_owned = λ q free. next.others q (apart q free) ∙ alive.ops_owned q free;
  nodes_owned = λ u out. rw next.nodes (alive.nodes_owned u out);
}
  where
    apart : (q : Ptr) → hit q acc + count_clients q cs ≡ 0 → q ≢ p
    apart q free same = let gone = subst (λ r. s.ops r ≡ none) same (alive.ops_owned q free) in cc

    counted :
        (q : Ptr)
        → count_sqes q (xs ++ (sqe ∷ [])) + (count q flight + count_cqes q ps)
          ≡ hit q acc + count_clients q cs
    counted q =
        let same : hit q sqe.user_data ≡ hit q p = rw user refl in
        omega (arith, alive.pending q, count_sqes-append q xs (sqe ∷ []), same)
