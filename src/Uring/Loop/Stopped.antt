-- ===== src/Uring/Loop/Stopped.antt =====
-- The clean-up once the loop has stopped, in whatever state.
use linux_modern_io_multiple.Prelude.{
  ℕ, suc, ◌<◌, ◌≡◌, ◌≢◌, refl, arith, List, [], ◌∷◌, ◌++◌, length, none, true, ◌==◌, if◌then◌else◌,
  Bool-cases, inl, inr, dec_lt,
}
use linux_modern_io_multiple.Prelude.Int.{ℤ}
use linux_modern_io_multiple.Prelude.Run.{ok, exited}
use linux_modern_io_multiple.Links.{Ptr, null, ends}
use linux_modern_io_multiple.Links.Chain.{Cells, IsList, has}
use linux_modern_io_multiple.Uring.Tracker.{TrackerHeap}
use linux_modern_io_multiple.Uring.Ring.{recv_from_client, send_to_client, close_connection}
use linux_modern_io_multiple.Uring.Server.{Server, Ops, do_service_loop_cleanup}
use linux_modern_io_multiple.Uring.Server.Cleanup.{
  Tracks, AllFreed, all_close, do_service_loop_cleanup-all,
}
use linux_modern_io_multiple.Uring.Loop.{World, Reaches}
use linux_modern_io_multiple.Uring.Loop.Clients.{AreClients, receives, sends, closes}
use linux_modern_io_multiple.Uring.Loop.Pending.{count_clients, hit, hit_ne, hit_other}
use linux_modern_io_multiple.Uring.Loop.Reach.{IsServing}
use linux_modern_io_multiple.Uring.Loop.Steps.{Reaches-IsServing}

-- The descriptors of the clients.
AreClients-Tracks :
    (ops : Ops) (cs : Cells Ptr) → AreClients ops cs → (fds : List ℤ) × Tracks ops cs fds
AreClients-Tracks ops [] c = ([], tt)
AreClients-Tracks ops ((t, p) ∷ cs) (ne, is, rest) =
    let (fds, tracked) = AreClients-Tracks ops cs rest in
    elim is [
      | receives con e ↦ (
        con.fd ∷ fds,
        (record { kind = recv_from_client; con = con; at = refl; ne = ne; here = e }, tracked),
      )
      | sends con e ↦ (
        con.fd ∷ fds,
        (record { kind = send_to_client; con = con; at = refl; ne = ne; here = e }, tracked),
      )
      | closes con e ↦ (
        con.fd ∷ fds,
        (record { kind = close_connection; con = con; at = refl; ne = ne; here = e }, tracked),
      )
    ]

-- Every tracker node is freed, and every operation that a tracker node leads to.
AllFreed-node :
    (nodes : TrackerHeap) (ops : Ops) (cs : Cells Ptr) (t : Ptr)
    → AllFreed nodes ops cs
    → has t cs ≡ true
    → nodes t ≡ none
AllFreed-node nodes ops [] t f i = cc
AllFreed-node nodes ops ((u, p) ∷ cs) t (node, _, rest) i = elim (Bool-cases (t == u)) [
  | inl hit ↦ let same : t ≡ u = ground arith in rw same node
  | inr miss ↦ AllFreed-node nodes ops cs t rest (ground arith)
]

AllFreed-op :
    (nodes : TrackerHeap) (ops : Ops) (cs : Cells Ptr) (p : Ptr)
    → AllFreed nodes ops cs
    → 0 < count_clients p cs
    → ops p ≡ none
AllFreed-op nodes ops [] p f i = absurd (omega arith)
AllFreed-op nodes ops ((u, q) ∷ cs) p (_, op, rest) i = elim (dec_lt 0 (hit p q)) [
  | yes here ↦ rw (hit_ne p q here) op
  | no other ↦ AllFreed-op nodes ops cs p rest (omega arith)
]

-- In every state that the loop and the kernel reach from one that `IsServing` describes, the
-- clean-up goes through the whole tracker: it closes the descriptor that each client's operation
-- has, in the order of their arrival, and after it no tracker node is allocated, and no operation
-- but the accept request on the stack; if one of those calls of `close` fails, the process exits. One
-- round more than there are clients is fuel enough.
pub Reaches-do_service_loop_cleanup :
    (n setup_flags : ℕ) (acc : Ptr) (ls : ℤ) (v w : World) (close : ℤ → ℤ)
    → IsServing setup_flags acc ls v
    → Reaches n setup_flags v w
    → (cs : Cells Ptr) × (fds : List ℤ) × IsList w.loop.server.tracker w.loop.server.nodes cs
      × Tracks w.loop.server.ops cs fds
      × (s' : Server) × (do_service_loop_cleanup close (suc (length cs)) w.loop.server
          ≡ (if all_close close fds then ok s' else exited))
      × (s'.closed ≡ w.loop.server.closed ++ fds)
      × ((t : Ptr) → s'.nodes t ≡ none)
      × ((p : Ptr) → p ≢ acc → s'.ops p ≡ none)
      × (s'.tracker ≡ ends null null)
Reaches-do_service_loop_cleanup n setup_flags acc ls v w close i reached =
    let now = Reaches-IsServing n setup_flags acc ls i reached in
    let s = w.loop.server in
    let (fds, tracked) = AreClients-Tracks s.ops now.cells now.alive.clients in
    let (s', ran, closed, freed, no_node, no_op, gone) =
      do_service_loop_cleanup-all close (suc (length now.cells)) s now.cells fds (omega arith)
        now.alive.tracked tracked in
    (
      now.cells,
      fds,
      now.alive.tracked,
      tracked,
      s',
      ran,
      closed,
      λ t. elim (Bool-cases (has t now.cells)) [
        | inl i ↦ AllFreed-node s'.nodes s'.ops now.cells t freed i
        | inr out ↦ no_node t (now.alive.nodes_owned t out)
      ],
      λ p apart. elim (dec_lt 0 (count_clients p now.cells)) [
        | yes client ↦ AllFreed-op s'.nodes s'.ops now.cells p freed client
        | no other ↦ no_op p (now.alive.ops_owned p (omega (arith, hit_other p acc apart)))
      ],
      gone,
    )
