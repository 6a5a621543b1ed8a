-- ===== src/Uring/Tracker.antt =====
-- The memory tracker of code/c/server/io_uring/io_uring_server_utils.c: a doubly linked list of the
-- operations that the server has allocated. A function returns the new ends and the new heap.
pub mod Lists
use linux_modern_io_multiple.Prelude.{ℕ, ◌==◌, if◌then◌else◌}
use linux_modern_io_multiple.Prelude.Run.{Run, ok, ◌>>=◌}
use linux_modern_io_multiple.Links.{Ptr, null, Heap, Ends, ends, load, set_next, set_prev, write}

-- A tracker node carries the address of the operation: `allocated_op`.
abbrev pub TrackerHeap : Type 0
TrackerHeap = Heap Ptr

unfoldable pub mem_t_create : Ends
mem_t_create = ends null null

unfoldable pub mem_t_push_back : Ends → Ptr → TrackerHeap → Run (Ends × TrackerHeap)
unfolding set_next set_prev
mem_t_push_back tracker node h =
    if tracker.head == null
    then (do h ← set_prev h node null; h ← set_next h node null; ok (ends node node, h))
    else (do
      h ← set_prev h node tracker.tail
      h ← set_next h node null
      h ← set_next h tracker.tail node
      ok (ends tracker.head node, h))

-- `node->next->prev = node->prev`, if there is a next node.
unfoldable pub unlink_next : Ptr → TrackerHeap → Run TrackerHeap
unfolding load set_prev
unlink_next node h = load h node >>= λ n. if n.next == null then ok h else set_prev h n.next n.prev

-- `node->prev->next = node->next`, if there is a previous node.
unfoldable pub unlink_prev : Ptr → TrackerHeap → Run TrackerHeap
unfolding load set_next
unlink_prev node h = load h node >>= λ n. if n.prev == null then ok h else set_next h n.prev n.next

unfoldable pub mem_t_remove_node : Ends → Ptr → TrackerHeap → Run (Ends × TrackerHeap)
mem_t_remove_node tracker node h = do
  h ← unlink_next node h
  h ← unlink_prev node h
  n ← load h node
  let head = if node == tracker.head then n.next else tracker.head
  let tail = if node == tracker.tail then n.prev else tracker.tail
  h ← set_prev h node null
  h ← set_next h node null
  ok (ends head tail, h)
