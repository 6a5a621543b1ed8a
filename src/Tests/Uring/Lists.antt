-- ===== src/Tests/Uring/Lists.antt =====
-- A tracker of three nodes.
use linux_modern_io_multiple.Prelude.{◌≡◌, refl, arith, [], ◌∷◌, ◌==◌, if◌then◌else◌, some, none}
use linux_modern_io_multiple.Prelude.Run.{ok}
use linux_modern_io_multiple.Links.{Ptr, null, node, Ends, ends}
use linux_modern_io_multiple.Links.Chain.{Cells, IsList, SameOutside}
use linux_modern_io_multiple.Uring.Tracker.{TrackerHeap, mem_t_remove_node}
use linux_modern_io_multiple.Uring.Tracker.Lists.{mem_t_remove_node-rest}

-- Nodes at 10, 20 and 30, and one at 40 that is in no list.
abbrev nodes : TrackerHeap
nodes p =
    if p == 10
    then some (node 100 20 null)
    else (if p == 20
        then some (node 200 30 10)
        else (if p == 30
            then some (node 300 null 20)
            else (if p == 40 then some (node 400 null null) else none)))

abbrev cells : Cells Ptr
cells = (10, 100) ∷ (20, 200) ∷ (30, 300) ∷ []

nodes-IsList : IsList (ends 10 30) nodes cells
nodes-IsList = record {
  head = refl;
  tail = refl;
  chain = (omega arith, refl, refl, (omega arith, refl, refl, (omega arith, refl, refl, tt)));
}

-- The node in the middle.
mem_t_remove_node-rest_example :
    (l' : Ends) × (g : TrackerHeap) × (mem_t_remove_node (ends 10 30) 20 nodes ≡ ok (l', g))
    × IsList l' g ((10, 100) ∷ (30, 300) ∷ [])
    × (g 20 ≡ some (node 200 null null))
    × SameOutside cells nodes g
mem_t_remove_node-rest_example =
    mem_t_remove_node-rest (ends 10 30) nodes ((10, 100) ∷ []) ((30, 300) ∷ []) 20 200 nodes-IsList
