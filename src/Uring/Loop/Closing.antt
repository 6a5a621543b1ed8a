-- ===== src/Uring/Loop/Closing.antt =====
-- A close that completes, of a server of which all is well.
use linux_modern_io_multiple.Prelude.{
  ℕ, zero, suc, ◌+◌, ◌≡◌, ◌≢◌, ◌∙◌, sym, subst, arith, List, [], ◌∷◌, ◌++◌, append-nil, length,
  ℕ_discrete, length-append, some, none, inl, inr, true, false, ap,
}
use mathlib.Core.Bool.{false≢true}
use linux_modern_io_multiple.Prelude.Int.{ℤ, pos, negsuc, pos_part}
use linux_modern_io_multiple.Links.{Ptr, null}
use linux_modern_io_multiple.Links.Chain.{Cells, IsList, Linked-split, SameOutside, has, has-append}
use linux_modern_io_multiple.Uring.Ring.{Sqe, Cqe, ClientCon, close_connection}
use linux_modern_io_multiple.Uring.Server.{Server, Allocated, Ops, service_cqe_events}
use linux_modern_io_multiple.Uring.Server.Clients.{not_in_rest, service_cqe_events-closed}
use linux_modern_io_multiple.Uring.Server.Echo.{client_op, cqe_of}
use linux_modern_io_multiple.Uring.Server.Exits.{close-exited}
use linux_modern_io_multiple.Uring.Loop.Clients.{
  IsClient, AreClients, IsClient-same, IsClient-unique, IsClient-not_accept, AreClients-along,
  AreClients-append, AreClients-split,
}
use linux_modern_io_multiple.Uring.Loop.Clients.IsClient.{closes}
use linux_modern_io_multiple.Uring.Loop.Pending.{
  count, count_sqes, count_cqes, count_clients, hit, hit_other, count_sqes-append,
  count_clients-append,
}
use linux_modern_io_multiple.Uring.Loop.Stored.{Alive, Handled}

-- A client leaves, and the operations of the others are as they were.
AreClients-without :
    (ops ops' : Ops) (before after : Cells Ptr) (t p : Ptr)
    → AreClients ops (before ++ ((t, p) ∷ after))
    → has t (before ++ after) ≡ false
    → ((q : Ptr) → q ≢ p → ops' q ≡ ops q)
    → AreClients ops' (before ++ after)
AreClients-without ops ops' before after t p cs out others =
    let (front, (_, was, back)) = AreClients-split ops before ((t, p) ∷ after) cs in
    AreClients-along ops ops' (before ++ after)
      (λ u q i c. IsClient-same ops ops' u q (others q (λ same. elsewhere u q i was c same)) c)
      (AreClients-append ops before after front back)
  where
    elsewhere :
        (u q : Ptr) → has u (before ++ after) ≡ true → IsClient ops t p → IsClient ops u q → q ≢ p
    elsewhere u q i was c same =
        let e = IsClient-unique ops t u p was (subst (λ r. IsClient ops u r) same c) in
        false≢true (sym out ∙ subst (λ r. has r (before ++ after) ≡ true) (sym e) i)

module _ (n : ℕ) (acc : Ptr) (ls : ℤ) (s : Server) (flight : List Ptr) (xs : List Sqe)
    (ps : List Cqe) (cs : Cells Ptr) (p : Ptr) (a : Allocated)
    (alive : Alive acc ls s (p ∷ flight) xs ps cs) where
  abbrev Served : ℤ → Type 0
  Served r = Handled acc ls flight xs ps (service_cqe_events n s (cqe_of p r) a)

  -- Without the client whose close is done, all is well.
  Alive-closed :
      (con : ClientCon) (t : Ptr) (before after : Cells Ptr) (s' : Server)
      → cs ≡ before ++ ((t, p) ∷ after)
      → s.ops p ≡ some (client_op close_connection con t)
      → IsList s'.tracker s'.nodes (before ++ after)
      → AreClients s'.ops (before ++ after)
      → ((q : Ptr) → q ≢ p → s'.ops q ≡ s.ops q)
      → s'.iou ≡ s.iou
      → s'.ops p ≡ none
      → s'.nodes t ≡ none
      → SameOutside (before ++ ((t, p) ∷ after)) s.nodes s'.nodes
      → Alive acc ls s' flight (xs ++ []) ps (before ++ after)
  Alive-closed con t before after s' split e il cl others iou op_freed node_freed outer = record {
    queue = rw (append-nil, iou) alive.queue;
    posted = rw iou alive.posted;
    tracked = il;
    clients = cl;
    nonnull = alive.nonnull;
    addrlen = alive.addrlen;
    accepting =
        others acc
          (IsClient-not_accept s.ops t p acc ls alive.addrlen (closes con e) alive.accepting)
        ∙ alive.accepting;
    pending = λ r. counted r;
    total = omega (
      arith,
      alive.total,
      ap length split,
      length-append xs [],
      length-append before after,
      length-append before ((t, p) ∷ after),
    );
    ops_owned = λ r free. elim (ℕ_discrete r p) [
      | yes same ↦ rw same op_freed
      | no other ↦
          others r other
          ∙ alive.ops_owned r (
              omega (
                arith,
                hit_other r p other,
                ap (count_clients r) split,
                count_clients-append r before after,
                count_clients-append r before ((t, p) ∷ after),
              ))
    ];
    nodes_owned = λ u out. elim (ℕ_discrete u t) [
      | yes same ↦ rw same node_freed
      | no other ↦
          let off : has u (before ++ ((t, p) ∷ after)) ≡ false =
            ground (arith, has-append u before after, has-append u before ((t, p) ∷ after)) in
          outer u off ∙ alive.nodes_owned u (rw split off)
    ];
  }
    where
      counted :
          (r : Ptr)
          → count_sqes r (xs ++ []) + (count r flight + count_cqes r ps)
            ≡ hit r acc + count_clients r (before ++ after)
      counted r = omega (
        arith,
        alive.pending r,
        ap (count_clients r) split,
        count_sqes-append r xs [],
        count_clients-append r before after,
        count_clients-append r before ((t, p) ∷ after),
      )

  -- A close.
  pub close-Served :
      (con : ClientCon) (t : Ptr) (r : ℤ) (before after : Cells Ptr)
      → p ≢ null
      → cs ≡ before ++ ((t, p) ∷ after)
      → s.ops p ≡ some (client_op close_connection con t)
      → Served r
  close-Served con t (negsuc m) before after ne split e =
      inl (close-exited n s p a con t (negsuc m) ne e (λ k. cc))
  close-Served con t (pos (suc m)) before after ne split e =
      inl
        (close-exited n s p a con t (pos (suc m)) ne e (λ k. absurd (omega (arith, ap pos_part k))))
  close-Served con t (pos zero) before after ne split e =
      let il = subst (λ l. IsList s.tracker s.nodes l) split alive.tracked in
      let cl = subst (λ l. AreClients s.ops l) split alive.clients in
      let (_, back, _) = Linked-split s.nodes null before ((t, p) ∷ after) null il.chain in
      let (s', ran, il', op_freed, node_freed, others, iou, outer) =
        service_cqe_events-closed n s before after t p con a il back.0 ne e in
      let out = not_in_rest s.nodes null before after t p il.chain in
      inr (record {
        server = s';
        sqes = [];
        cells = before ++ after;
        ran = ran;
        alive =
            Alive-closed con t before after s' split e il'
              (AreClients-without s.ops s'.ops before after t p cl out others) others iou op_freed
              node_freed outer;
      })
