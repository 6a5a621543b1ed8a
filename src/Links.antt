-- ===== src/Links.antt =====
-- Nodes of a doubly linked list at addresses, and the lists that they form. The nodes of
-- code/c/server/io_uring (`struct iou_op_mem_tracker_node`) and of code/c/server/epoll
-- (`pd_echo_connection_t`) differ in what they carry, the payload.
pub mod Chain
use linux_modern_io_multiple.Prelude.{ℕ, Option, none, some, ◌==◌, if◌then◌else◌}
use linux_modern_io_multiple.Prelude.Run.{Run, ok, fault, from_cell, ◌>>=◌}

abbrev pub Ptr : Type 0
Ptr = ℕ

abbrev pub null : Ptr
null = 0

pub record Node (A : Type 0) : Type 0 where
  pub payload : A
  pub next : Ptr
  pub prev : Ptr

-- What `malloc` gave and `free` did not take back.
abbrev pub Heap : Type 0 → Type 0
Heap A = Ptr → Option (Node A)

module _ {A : Type 0} where
  abbrev pub node : A → Ptr → Ptr → Node A
  node a n p = record { payload = a; next = n; prev = p }

  unfoldable pub write : Heap A → Ptr → Option (Node A) → Heap A
  write h p c q = if q == p then c else h q

  -- `*p`: a fault at NULL and at an address that holds no node.
  unfoldable pub load : Heap A → Ptr → Run (Node A)
  load h p = if p == null then fault else from_cell (h p)

  -- `p->next = q`
  unfoldable pub set_next : Heap A → Ptr → Ptr → Run (Heap A)
  unfolding load write
  set_next h p q = load h p >>= λ n. ok (write h p (some (node n.payload q n.prev)))

  -- `p->prev = q`
  unfoldable pub set_prev : Heap A → Ptr → Ptr → Run (Heap A)
  unfolding load write
  set_prev h p q = load h p >>= λ n. ok (write h p (some (node n.payload n.next q)))

  -- `free(p)`; `free(NULL)` does nothing.
  unfoldable pub free : Heap A → Ptr → Run (Heap A)
  unfolding load write
  free h p = if p == null then ok h else (load h p >>= λ n. ok (write h p none))

-- The pointers to the ends.
pub record Ends : Type 0 where
  pub head : Ptr
  pub tail : Ptr

abbrev pub ends : Ptr → Ptr → Ends
ends h t = record { head = h; tail = t }
