-- ===== src/Uring/Loop/Steps.antt =====
-- The loop from its start on, with the kernel's steps between its turns.
use linux_modern_io_multiple.Prelude.{
  ℕ, ◌+◌, ◌≡◌, ◌≢◌, ◌∙◌, refl, sym, subst, arith, List, [], ◌∷◌, none, some, ◌⊎◌, inl, inr,
}
use linux_modern_io_multiple.Prelude.Int.{ℤ}
use linux_modern_io_multiple.Prelude.Run.{ok, exited}
use linux_modern_io_multiple.Links.{Ptr, null}
use linux_modern_io_multiple.Links.Chain.{IsList}
use linux_modern_io_multiple.Uring.Ring.{IouOp, config_sqe}
use linux_modern_io_multiple.Uring.Ring.Completion.{IsPosted, IsPosted-same}
use linux_modern_io_multiple.Uring.Ring.Submission.{IsQueue}
use linux_modern_io_multiple.Uring.Server.{Server, create_accept_sqe, sizeof_sockaddr_in}
use linux_modern_io_multiple.Uring.Server.Clients.{accept_op, accept_sqe}
use linux_modern_io_multiple.Uring.Server.Echo.{submit-store_op, load_op-ok}
use linux_modern_io_multiple.Uring.Setup.Entering.{EnterCall}
use linux_modern_io_multiple.Uring.Ring.Masking.{IsRing-positive}
use linux_modern_io_multiple.Uring.Loop.{
  Loop, Answers, World, turn, asked_by, Step, turned, takes, receives, completes, Reaches, start,
  next, start_loop, entered,
}
use linux_modern_io_multiple.Uring.Loop.Reach.{IsServing, turn-IsServing, Turned}
use linux_modern_io_multiple.Uring.Loop.Pending.{hit, hit_self}
use linux_modern_io_multiple.Uring.Loop.Moves.{
  takes-IsServing, receives-IsServing, completes-IsServing,
}

module _ (n setup_flags : ℕ) (acc : Ptr) (ls : ℤ) where
  -- Every step, of the program or of the kernel, keeps all well.
  pub Step-IsServing :
      {v w : World}
      → Step n setup_flags v w
      → IsServing setup_flags acc ls v
      → IsServing setup_flags acc ls w
  Step-IsServing (turned v a calls loop new_node new_op ran) i =
      elim (turn-IsServing n setup_flags acc ls v a i new_node new_op) [
        | inl gone ↦ let no = sym gone ∙ ran in cc
        | inr t ↦
            let same : (t.calls, t.loop) ≡ (calls, loop) = (let e = sym t.ran ∙ ran in cc) in
            subst
              (λ (r : List EnterCall × Loop).
                IsServing setup_flags acc ls
                  (record { loop = r.1; asked = v.asked + asked_by r.0; flight = v.flight }))
              same t.serving
      ]
  Step-IsServing (takes v j x ne e f mode) i =
      takes-IsServing setup_flags acc ls v j x i.sqes i refl ne e f mode
  Step-IsServing (receives v p t con bytes e len) i =
      receives-IsServing setup_flags acc ls v p t con bytes i e
  Step-IsServing (completes v us vs p res split room) i =
      completes-IsServing setup_flags acc ls v us vs p res i split room

  -- `IsServing` holds in every state that the loop and the kernel reach from one in which it holds:
  -- both rings are queues, the tracker lists the clients, each with an operation that leads back to
  -- its node, and the operations that are outstanding, queued, with the kernel or completed, are
  -- those of the clients and the accept request, each once, and no operation but these and no tracker
  -- node but the clients' is allocated. Without the kernel's polling thread, the
  -- SQEs in the queue are those counted by the loop and those that the kernel was asked for.
  pub Reaches-IsServing :
      {v w : World}
      → IsServing setup_flags acc ls v
      → Reaches n setup_flags v w
      → IsServing setup_flags acc ls w
  Reaches-IsServing i start = i
  Reaches-IsServing i (next r step) = Step-IsServing step (Reaches-IsServing i r)

  -- From empty rings, an empty tracker, no memory allocated and an accept request on the stack, all is well as the loop is
  -- entered, with one SQE to submit.
  pub start_loop-IsServing :
      (s : Server) (op : IouOp)
      → IsQueue s.iou []
      → IsPosted s.iou []
      → IsList s.tracker s.nodes []
      → acc ≢ null
      → s.ops acc ≡ some op
      → op.mem_tracker ≡ null
      → ((q : Ptr) → q ≢ acc → s.ops q ≡ none)
      → ((q : Ptr) → s.nodes q ≡ none)
      → (l : Loop) × (start_loop n s acc ls ≡ ok l)
        × (l.to_submit ≡ 1)
        × IsServing setup_flags acc ls (entered l)
  unfolding start_loop create_accept_sqe config_sqe
  start_loop-IsServing s op q posted il ne e stack no_op no_node =
      let (s', ran, after) =
        submit-store_op n s [] acc (accept_op ls sizeof_sockaddr_in) (accept_sqe acc ls) q
          (IsRing-positive q.ring) ne refl in
      (
        record { server = s'; to_submit = 1 },
        simp (load_op-ok s acc op ne e, stack, ran),
        refl,
        record {
          sqes = accept_sqe acc ls ∷ [];
          cqes = [];
          cells = [];
          alive = record {
            queue = after.queue;
            posted = IsPosted-same s'.iou s.iou [] after.completions posted;
            tracked = rw (after.tracker, after.nodes) il;
            clients = tt;
            nonnull = ne;
            addrlen = sizeof_sockaddr_in;
            accepting = after.here;
            pending = λ p. omega arith;
            total = refl;
            ops_owned = λ p free. after.others p (apart p free) ∙ no_op p (apart p free);
            nodes_owned = λ u _. rw after.nodes (no_node u);
          };
          counted = λ off. refl;
        },
      )
    where
      apart : (p : Ptr) → hit p acc + 0 ≡ 0 → p ≢ acc
      apart p free same = let there : hit p acc ≡ 1 = rw same (hit_self acc) in absurd (omega arith)

  -- In every state that the loop and the kernel reach from the start of `service_loop`, with empty
  -- rings no client and no memory allocated, and with allocations that are new to the server, the next turn of the loop
  -- ends the process by a failed assertion or returns, whatever the CQE in front says: it does not
  -- fault, as it would on a freed, null or foreign pointer. Where it returns, `IsServing` holds of
  -- the new state: the operations that are outstanding are those of the clients that are tracked and
  -- the accept request, each once, and nothing else is allocated.
  pub service_loop-safe :
      (s : Server) (op : IouOp) (l : Loop) (w : World) (a : Answers)
      → IsQueue s.iou []
      → IsPosted s.iou []
      → IsList s.tracker s.nodes []
      → acc ≢ null
      → s.ops acc ≡ some op
      → op.mem_tracker ≡ null
      → ((q : Ptr) → q ≢ acc → s.ops q ≡ none)
      → ((q : Ptr) → s.nodes q ≡ none)
      → start_loop n s acc ls ≡ ok l
      → Reaches n setup_flags (entered l) w
      → w.loop.server.nodes a.allocated.tracker_ptr ≡ none
      → w.loop.server.ops a.allocated.op_ptr ≡ none
      → (turn n setup_flags w.loop a ≡ exited)
        ⊎ Turned setup_flags acc ls w (turn n setup_flags w.loop a)
  service_loop-safe s op l w a q posted il ne e stack no_op no_node ran reached new_node new_op =
      let (l', ran', _, i) = start_loop-IsServing s op q posted il ne e stack no_op no_node in
      let same : l' ≡ l = (let k = sym ran' ∙ ran in cc) in
      turn-IsServing n setup_flags acc ls w a
        (Reaches-IsServing (subst (λ k. IsServing setup_flags acc ls (entered k)) same i) reached)
        new_node new_op
