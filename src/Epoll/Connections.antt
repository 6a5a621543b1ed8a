-- ===== src/Epoll/Connections.antt =====
-- The connection list as `dll_connect_back` builds it: `prev` leads back from the tail, and no
-- node's `next` is ever set.
use linux_modern_io_multiple.Prelude.{
  ℕ, ◌≡◌, ◌≢◌, refl, sym, ◌∙◌, arith, true, false, List, [], ◌∷◌, ◌++◌, some, append-nil, map,
  append_assoc,
}
use linux_modern_io_multiple.Prelude.Int.{pos, negsuc, eqb_ℤ-ne}
use linux_modern_io_multiple.Prelude.Run.{ok}
use linux_modern_io_multiple.Links.{Ptr, null, node, Heap, write, load, set_prev, ends}
use linux_modern_io_multiple.Links.Chain.{
  Cells, has, first, last, has-append, last-append, has_other, not_null, eq_self,
}
use linux_modern_io_multiple.Net.{accept_client}
use linux_modern_io_multiple.Epoll.{
  Connection, Server, Arrival, connection, dll_connect_back, epoll_handle_new_client,
  epoll_handle_new_clients,
}

abbrev pub BackLinked : Heap Connection → Ptr → Cells Connection → Type 0
BackLinked h before [] = Unit
BackLinked h before ((p, c) ∷ xs) =
    (p ≢ null) × (h p ≡ some (node c null before)) × (has p xs ≡ false) × BackLinked h p xs

-- The list that the code keeps of the clients `xs`, in the order of their arrival: it can be walked
-- from the tail by `prev` alone, since `next` is NULL in every node.
pub record IsBackList (s : Server) (xs : Cells Connection) : Type 0 where
  pub head : s.dll.head ≡ first xs null
  pub tail : s.dll.tail ≡ last null xs
  pub chain : BackLinked s.heap null xs

BackLinked-frame :
    (h g : Heap Connection) (b : Ptr) (xs : Cells Connection)
    → ((q : Ptr) → has q xs ≡ true → g q ≡ h q)
    → BackLinked h b xs
    → BackLinked g b xs
BackLinked-frame h g b [] same l = tt
BackLinked-frame h g b ((p, c) ∷ xs) same (ne, e, out, l) =
    (ne, same p (ground arith) ∙ e, out, BackLinked-frame h g p xs (λ q i. same q (ground arith)) l)

BackLinked-append_one :
    (h : Heap Connection) (b : Ptr) (xs : Cells Connection) (p : Ptr) (c : Connection)
    → BackLinked h b xs
    → has p xs ≡ false
    → p ≢ null
    → h p ≡ some (node c null (last b xs))
    → BackLinked h b (xs ++ ((p, c) ∷ []))
BackLinked-append_one h b [] p c l out ne e = (ne, e, refl, tt)
BackLinked-append_one h b ((q, d) ∷ xs) p c (ne', e', out', l) out ne e = (
  ne',
  e',
  ground (arith, has-append q xs ((p, c) ∷ [])),
  BackLinked-append_one h q xs p c l (ground arith) ne e,
)

-- What the system answers when it takes in a client: a descriptor, memory that is not in use, and
-- success.
pub record IsServed (xs : Cells Connection) (a : Arrival) (fd : ℕ) : Type 0 where
  pub accepted : a.accept4 ≡ pos fd
  pub allocated : a.con ≢ null
  pub fresh : has a.con xs ≡ false
  pub added : a.epoll_ctl ≡ pos 0

-- A new client is the new tail, whose `prev` is the old one.
pub epoll_handle_new_client-append :
    (zeroes : List ℕ) (s : Server) (xs : Cells Connection) (a : Arrival) (fd : ℕ)
    → IsBackList s xs
    → IsServed xs a fd
    → (s' : Server) × (epoll_handle_new_client zeroes s (pos fd) a ≡ ok s')
      × IsBackList s' (xs ++ ((a.con, connection (pos fd) zeroes) ∷ []))
      × (s'.closed ≡ s.closed)
      × (s'.sent ≡ s.sent)
      × (s'.timer ≡ s.timer)
unfolding epoll_handle_new_client dll_connect_back write set_prev load
epoll_handle_new_client-append zeroes s [] a fd il sv = (
  record s {
    dll = ends a.con a.con;
    heap = write s.heap a.con (some (node (connection (pos fd) zeroes) null null));
  },
  ground (arith, il.head, sv.allocated, sv.added),
  record { head = refl; tail = refl; chain = (sv.allocated, ground arith, refl, tt) },
  refl,
  refl,
  refl,
)
epoll_handle_new_client-append zeroes s ((p, c) ∷ xs) a fd il sv = (
  record s { dll = ends p a.con; heap = heap' },
  rw (
    not_null a.con sv.allocated,
    sv.added,
    il.head,
    not_null p il.chain.0,
    eq_self a.con,
    il.tail,
  ),
  record {
    head = refl;
    tail = sym (last-append null ((p, c) ∷ xs) ((a.con, connection (pos fd) zeroes) ∷ []));
    chain =
        BackLinked-append_one heap' null ((p, c) ∷ xs) a.con (connection (pos fd) zeroes)
          (BackLinked-frame s.heap heap' null ((p, c) ∷ xs)
            (λ q i. rw (has_other q a.con ((p, c) ∷ xs) i sv.fresh)) il.chain)
          sv.fresh sv.allocated (ground arith);
  },
  refl,
  refl,
  refl,
)
  where
    heap' : Heap Connection
    heap' =
        write (write s.heap a.con (some (node (connection (pos fd) zeroes) null null))) a.con
          (some (node (connection (pos fd) zeroes) null (last p xs)))

abbrev pub cell : List ℕ → Arrival × ℕ → Ptr × Connection
cell zeroes (a, fd) = (a.con, connection (pos fd) zeroes)

abbrev pub AllServed : List ℕ → Cells Connection → List (Arrival × ℕ) → Type 0
AllServed zeroes xs [] = Unit
AllServed zeroes xs ((a, fd) ∷ r) =
    IsServed xs a fd × AllServed zeroes (xs ++ (cell zeroes (a, fd) ∷ [])) r

abbrev pub arrival : Arrival × ℕ → Arrival
arrival (a, fd) = a

served-step :
    (zeroes : List ℕ) (s s1 : Server) (a : Arrival) (fd : ℕ) (rounds : List Arrival)
    → a.accept4 ≡ pos fd
    → epoll_handle_new_client zeroes s (pos fd) a ≡ ok s1
    → epoll_handle_new_clients zeroes s (a ∷ rounds) ≡ epoll_handle_new_clients zeroes s1 rounds
unfolding epoll_handle_new_clients accept_client
served-step zeroes s s1 a fd rounds e ran = simp (e, eqb_ℤ-ne (pos fd) (negsuc 0) (λ p. cc), ran)

-- The listening socket is emptied: however many clients wait, each gets a connection, until the
-- kernel says that none is left. Walked from the tail by `prev`, the connections are those of before
-- and then the new ones, in the order in which the kernel handed them out. It is no doubly linked
-- list: no node's `next` leads to another, in the new nodes as in those before them.
pub epoll_handle_new_clients-append :
    (zeroes : List ℕ) (s : Server) (xs : Cells Connection) (clients : List (Arrival × ℕ))
    (end : Arrival) (e : ℕ) (rounds : List Arrival)
    → IsBackList s xs
    → AllServed zeroes xs clients
    → end.accept4 ≡ negsuc e
    → end.again ≡ true
    → (s' : Server) × (epoll_handle_new_clients zeroes s (map arrival clients ++ (end ∷ rounds))
        ≡ ok s')
      × IsBackList s' (xs ++ map (cell zeroes) clients)
      × (s'.closed ≡ s.closed)
      × (s'.sent ≡ s.sent)
      × (s'.timer ≡ s.timer)
unfolding epoll_handle_new_clients accept_client
epoll_handle_new_clients-append zeroes s xs [] end e rounds il sv no_more again =
    (s, rw (no_more, again), rw append-nil il, refl, refl, refl)
epoll_handle_new_clients-append zeroes s xs ((a, fd) ∷ r) end e rounds il (sv, more) no_more again =
    let (s1, ran, il1, closed, sent, timer) =
      epoll_handle_new_client-append zeroes s xs a fd il sv in
    let (s2, ran2, il2, closed2, sent2, timer2) =
      epoll_handle_new_clients-append zeroes s1 (xs ++ (cell zeroes (a, fd) ∷ [])) r end e rounds
        il1 more no_more again in
    (
      s2,
      served-step zeroes s s1 a fd (map arrival r ++ (end ∷ rounds)) sv.accepted ran ∙ ran2,
      rw append_assoc at il2,
      closed2 ∙ closed,
      sent2 ∙ sent,
      timer2 ∙ timer,
    )
