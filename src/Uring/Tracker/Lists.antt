-- ===== src/Uring/Tracker/Lists.antt =====
-- The tracker is the list of the operations in it, in the order of their arrival.
use linux_modern_io_multiple.Prelude.{
  ◌≡◌, ◌≢◌, refl, sym, ◌∙◌, arith, true, false, ◌==◌, if◌then◌else◌, [], ◌∷◌, ◌++◌, some,
  append-nil, Bool-cases, inl, inr,
}
use mathlib.Core.Bool.{false≢true}
use linux_modern_io_multiple.Prelude.Run.{ok, ◌>>=◌}
use linux_modern_io_multiple.Links.{Ptr, null, node, set_next, set_prev, Ends, ends}
use linux_modern_io_multiple.Links.Chain.{
  Cells, has, first, last, Linked, Apart, SameOutside, IsList, has-append, last-append, has-last,
  Linked-frame, Linked-append, Linked-split, set_prev-Linked, set_next-Linked, set_prev_cell,
  set_next_cell, has_other, load-ok, not_null,
}
use linux_modern_io_multiple.Uring.Tracker.{
  TrackerHeap, mem_t_push_back, unlink_next, unlink_prev, mem_t_remove_node,
}

-- The node after the two writes that `mem_t_push_back` makes to it.
fresh_node :
    (h : TrackerHeap) (p : Ptr) (v : Ptr) (n b b' : Ptr)
    → p ≢ null
    → h p ≡ some (node v n b)
    → (g : TrackerHeap) × ((set_prev h p b' >>= λ h. set_next h p null) ≡ ok g)
      × (g p ≡ some (node v null b'))
      × SameOutside ((p, v) ∷ []) h g
fresh_node h p v n b b' ne e =
    let (h1, ran1, here1, same1) = set_prev_cell h p v n b b' ne e in
    let (h2, ran2, here2, same2) = set_next_cell h1 p v n b' null ne here1 in
    (h2, rw ran1 ran2, here2, λ q o. same2 q o ∙ same1 q o)

last_ne_null :
    (h : TrackerHeap) (b x w : Ptr) (xs : Cells Ptr) (a : Ptr)
    → Linked h b ((x, w) ∷ xs) a
    → last x xs ≢ null
last_ne_null h b x w [] a l = l.0
last_ne_null h b x w ((y, v) ∷ xs) a l = last_ne_null h x y v xs a l.3

-- `mem_t_push_back` puts an allocated node that is not in the list behind the others, and writes
-- to no node outside the list but that one.
pub mem_t_push_back-append :
    (l : Ends) (h : TrackerHeap) (xs : Cells Ptr) (p : Ptr) (v n b : Ptr)
    → IsList l h xs
    → p ≢ null
    → has p xs ≡ false
    → h p ≡ some (node v n b)
    → (l' : Ends) × (g : TrackerHeap) × (mem_t_push_back l p h ≡ ok (l', g))
      × IsList l' g (xs ++ ((p, v) ∷ []))
      × SameOutside (xs ++ ((p, v) ∷ [])) h g
unfolding mem_t_push_back
mem_t_push_back-append l h [] p v n b il ne out e =
    let (h1, ran1, here1, same1) = set_prev_cell h p v n b null ne e in
    let (h2, ran2, here2, same2) = set_next_cell h1 p v n null null ne here1 in
    (
      ends p p,
      h2,
      rw (il.head, ran1) (rw ran2),
      record { head = refl; tail = refl; chain = (ne, here2, refl, tt) },
      λ q o. same2 q o ∙ same1 q o,
    )
mem_t_push_back-append l h ((x, w) ∷ xs) p v n b il ne out e =
    let (h1, ran1, here1, same1) = set_prev_cell h p v n b (last x xs) ne e in
    let (h2, ran2, here2, same2) = set_next_cell h1 p v n (last x xs) null ne here1 in
    let kept =
      Linked-frame h h2 null ((x, w) ∷ xs) null (λ q i. same2 q (other q i) ∙ same1 q (other q i))
        il.chain in
    let (h3, ran3, front, same3) = set_next-Linked h2 null x w xs null p kept in
    (
      ends x p,
      h3,
      rw (il.head, il.tail, not_null x il.chain.0, ran1) (rw ran2 (rw ran3)),
      record {
        head = refl;
        tail = sym (last-append null ((x, w) ∷ xs) ((p, v) ∷ []));
        chain =
            Linked-append h3 null ((x, w) ∷ xs) ((p, v) ∷ []) null front
              (ne, same3 p out ∙ here2, refl, tt) (λ q i. other q i);
      },
      λ q o. ground (arith, same3 q, same2 q, same1 q, has-append q xs ((p, v) ∷ [])),
    )
  where
    other : (q : Ptr) → has q ((x, w) ∷ xs) ≡ true → has q ((p, v) ∷ []) ≡ false
    other q i = rw (has_other q p ((x, w) ∷ xs) i out)

-- The two neighbours of a node let go of it.
unlink_next-Linked :
    (h : TrackerHeap) (p v b : Ptr) (ys : Cells Ptr)
    → p ≢ null
    → h p ≡ some (node v (first ys null) b)
    → has p ys ≡ false
    → Linked h p ys null
    → (g : TrackerHeap) × (unlink_next p h ≡ ok g) × Linked g b ys null × SameOutside ys h g
unfolding unlink_next
unlink_next-Linked h p v b [] ne e out l = (h, ground arith, tt, λ q o. refl)
unlink_next-Linked h p v b ((y, w) ∷ ys) ne e out l =
    let (g, ran, linked, same) = set_prev-Linked h p b y w ys null l in
    (g, ground (arith, ran, l.0), linked, same)

unlink_prev-Linked :
    (h : TrackerHeap) (p v a : Ptr) (xs : Cells Ptr)
    → p ≢ null
    → h p ≡ some (node v a (last null xs))
    → Linked h null xs p
    → (g : TrackerHeap) × (unlink_prev p h ≡ ok g) × Linked g null xs a × SameOutside xs h g
unfolding unlink_prev
unlink_prev-Linked h p v a [] ne e l = (h, ground arith, tt, λ q o. refl)
unlink_prev-Linked h p v a ((x, w) ∷ xs) ne e l =
    let (g, ran, linked, same) = set_next-Linked h null x w xs p a l in
    (g, ground (arith, ran, last_ne_null h null x w xs p l), linked, same)

-- What the two tests do to the ends.
head_of_rest :
    (p v : Ptr) (xs ys : Cells Ptr)
    → has p xs ≡ false
    → (if p == first (xs ++ ((p, v) ∷ ys)) null
        then first ys null
        else first (xs ++ ((p, v) ∷ ys)) null)
      ≡ first (xs ++ ys) null
head_of_rest p v [] ys out = ground arith
head_of_rest p v ((x, w) ∷ xs) ys out = ground arith

tail_of_rest :
    (p v : Ptr) (xs ys : Cells Ptr)
    → has p ys ≡ false
    → (if p == last null (xs ++ ((p, v) ∷ ys))
        then last null xs
        else last null (xs ++ ((p, v) ∷ ys)))
      ≡ last null (xs ++ ys)
tail_of_rest p v xs [] out = rw (last-append null xs ((p, v) ∷ []), append-nil) (ground arith)
tail_of_rest p v xs ((y, w) ∷ ys) out =
    rw (last-append null xs ((p, v) ∷ ((y, w) ∷ ys)), last-append null xs ((y, w) ∷ ys))
      (ground (arith, in_rest))
  where
    in_rest : (p == last y ys) ≡ false
    in_rest = ground (arith, has_other (last y ys) p ((y, w) ∷ ys) (has-last y w ys) out)

pub Apart-out : (xs ys : Cells Ptr) (p v : Ptr) → Apart xs ((p, v) ∷ ys) → has p xs ≡ false
Apart-out xs ys p v apart = elim (Bool-cases (has p xs)) [
  | inl i ↦ ground (arith, apart p i)
  | inr o ↦ o
]

Apart-sym : (xs ys : Cells Ptr) → Apart xs ys → Apart ys xs
Apart-sym xs ys apart q i = elim (Bool-cases (has q xs)) [
  | inl j ↦ absurd (false≢true (sym (apart q j) ∙ i))
  | inr o ↦ o
]

-- Both neighbours let go of the node, and the rest is one chain.
record Unlinked (h : TrackerHeap) (xs ys : Cells Ptr) (p v : Ptr) : Type 0 where
  heap : TrackerHeap
  between : TrackerHeap
  ran_next : unlink_next p h ≡ ok between
  ran_prev : unlink_prev p between ≡ ok heap
  here : heap p ≡ some (node v (first ys null) (last null xs))
  ne : p ≢ null
  chain : Linked heap null (xs ++ ys) null
  out_xs : has p xs ≡ false
  out_ys : has p ys ≡ false
  same : (q : Ptr) → has q xs ≡ false → has q ys ≡ false → heap q ≡ h q

unlink :
    (h : TrackerHeap) (xs ys : Cells Ptr) (p v : Ptr)
    → Linked h null (xs ++ ((p, v) ∷ ys)) null
    → Unlinked h xs ys p v
unlink h xs ys p v chain =
    let (front, (ne, e, out, back), apart) = Linked-split h null xs ((p, v) ∷ ys) null chain in
    let rest_apart : Apart xs ys = λ q i. ground (arith, apart q i) in
    let (h1, ran1, back1, same1) = unlink_next-Linked h p v (last null xs) ys ne e out back in
    let front1 = Linked-frame h h1 null xs p (λ q i. same1 q (rest_apart q i)) front in
    let (h2, ran2, front2, same2) =
      unlink_prev-Linked h1 p v (first ys null) xs ne (same1 p out ∙ e) front1 in
    let off = Apart-out xs ys p v apart in
    record {
      heap = h2;
      between = h1;
      ran_next = ran1;
      ran_prev = ran2;
      here = same2 p off ∙ same1 p out ∙ e;
      ne = ne;
      chain =
          Linked-append h2 null xs ys null front2
            (Linked-frame h1 h2 (last null xs) ys null
              (λ q i. same2 q (Apart-sym xs ys rest_apart q i)) back1)
            rest_apart;
      out_xs = off;
      out_ys = out;
      same = λ q o o'. same2 q o ∙ same1 q o';
    }

-- `mem_t_remove_node` takes a node of the list out, wherever it stands: the others stay in their
-- order, both ends are right, the node's own pointers are NULL, and no other node is written to.
pub mem_t_remove_node-rest :
    (l : Ends) (h : TrackerHeap) (xs ys : Cells Ptr) (p v : Ptr)
    → IsList l h (xs ++ ((p, v) ∷ ys))
    → (l' : Ends) × (g : TrackerHeap) × (mem_t_remove_node l p h ≡ ok (l', g))
      × IsList l' g (xs ++ ys)
      × (g p ≡ some (node v null null))
      × SameOutside (xs ++ ((p, v) ∷ ys)) h g
unfolding mem_t_remove_node
mem_t_remove_node-rest l h xs ys p v il =
    let u = unlink h xs ys p v il.chain in
    let (h3, ran3, here3, same3) =
      set_prev_cell u.heap p v (first ys null) (last null xs) null u.ne u.here in
    let (g, ran, here, same) = set_next_cell h3 p v (first ys null) null null u.ne here3 in
    (
      ends (first (xs ++ ys) null) (last null (xs ++ ys)),
      g,
      simp (
        u.ran_next,
        u.ran_prev,
        load-ok u.heap p (node v (first ys null) (last null xs)) u.ne u.here,
        ran3,
        ran,
        il.head,
        il.tail,
        head_of_rest p v xs ys u.out_xs,
        tail_of_rest p v xs ys u.out_ys,
      ),
      record {
        head = refl;
        tail = refl;
        chain =
            Linked-frame u.heap g null (xs ++ ys) null
              (λ q i. same q (away u q i) ∙ same3 q (away u q i)) u.chain;
      },
      here,
      λ q o.
          let (at_p, o_xs, o_ys) = none_of q o in same q at_p ∙ same3 q at_p ∙ u.same q o_xs o_ys,
    )
  where
    none_of :
        (q : Ptr)
        → has q (xs ++ ((p, v) ∷ ys)) ≡ false
        → (has q ((p, v) ∷ []) ≡ false) × (has q xs ≡ false) × (has q ys ≡ false)
    none_of q o = ground (arith, has-append q xs ((p, v) ∷ ys))

    away : Unlinked h xs ys p v → (q : Ptr) → has q (xs ++ ys) ≡ true → has q ((p, v) ∷ []) ≡ false
    away u q i = rw (has_other q p (xs ++ ys) i (rw (has-append p xs ys, u.out_xs) u.out_ys))
