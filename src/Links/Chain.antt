-- ===== src/Links/Chain.antt =====
-- Doubly linked chains of nodes.
use linux_modern_io_multiple.Prelude.{
  ◌≡◌, ◌≢◌, refl, sym, subst, Bool-cases, inl, inr, ◌∙◌, arith, Bool, true, false, ◌||◌, ◌==◌, List,
  [], ◌∷◌, ◌++◌, some, none,
}
use mathlib.Core.Bool.{false≢true}
use linux_modern_io_multiple.Prelude.Run.{ok}
use linux_modern_io_multiple.Links.{
  Ptr, null, Node, node, Heap, write, load, set_next, set_prev, free, Ends,
}

-- The address and the payload of each node, in order.
abbrev pub Cells : Type 0 → Type 0
Cells A = List (Ptr × A)

module _ {A : Type 0} where
  abbrev pub has : Ptr → Cells A → Bool
  has q [] = false
  has q ((p, _) ∷ xs) = (q == p) || has q xs

  -- The first node, and the last; the pointer given where there is none.
  abbrev pub first : Cells A → Ptr → Ptr
  first [] after = after
  first ((p, _) ∷ xs) after = p

  abbrev pub last : Ptr → Cells A → Ptr
  last before [] = before
  last before ((p, _) ∷ xs) = last p xs

  -- `next` leads through the nodes `xs` to `after`, `prev` back to `before`, and no node is twice
  -- among them.
  abbrev pub Linked : Heap A → Ptr → Cells A → Ptr → Type 0
  Linked h before [] after = Unit
  Linked h before ((p, a) ∷ xs) after =
      (p ≢ null)
      × (h p ≡ some (node a (first xs after) before))
      × (has p xs ≡ false)
      × Linked h p xs after

  abbrev pub Apart : Cells A → Cells A → Type 0
  Apart xs ys = (q : Ptr) → has q xs ≡ true → has q ys ≡ false

  -- `g` differs from `h` at most at the nodes `xs`.
  abbrev pub SameOutside : Cells A → Heap A → Heap A → Type 0
  SameOutside xs h g = (q : Ptr) → has q xs ≡ false → g q ≡ h q

  -- A list between two ends that are NULL, as the servers keep it.
  pub record IsList (l : Ends) (h : Heap A) (xs : Cells A) : Type 0 where
    pub head : l.head ≡ first xs null
    pub tail : l.tail ≡ last null xs
    pub chain : Linked h null xs null

  pub has-append : (q : Ptr) (xs ys : Cells A) → has q (xs ++ ys) ≡ (has q xs || has q ys)
  has-append q [] ys = refl
  has-append q ((p, a) ∷ xs) ys = ground (arith, has-append q xs ys)

  pub first-append :
      (xs ys : Cells A) (after : Ptr) → first (xs ++ ys) after ≡ first xs (first ys after)
  first-append [] ys after = refl
  first-append (x ∷ xs) ys after = refl

  pub last-append : (b : Ptr) (xs ys : Cells A) → last b (xs ++ ys) ≡ last (last b xs) ys
  last-append b [] ys = refl
  last-append b ((p, a) ∷ xs) ys = last-append p xs ys

  pub has-last : (p : Ptr) (a : A) (xs : Cells A) → has (last p xs) ((p, a) ∷ xs) ≡ true
  has-last p a [] = ground arith
  has-last p a ((q, b) ∷ xs) = ground (arith, has-last q b xs)

  -- A chain survives what happens elsewhere.
  pub Linked-frame :
      (h g : Heap A) (b : Ptr) (xs : Cells A) (a : Ptr)
      → ((q : Ptr) → has q xs ≡ true → g q ≡ h q)
      → Linked h b xs a
      → Linked g b xs a
  Linked-frame h g b [] a same l = tt
  Linked-frame h g b ((p, v) ∷ xs) a same (ne, e, out, l) =
      (ne, same p (ground arith) ∙ e, out, Linked-frame h g p xs a (λ q i. same q (ground arith)) l)

  pub Linked-append :
      (h : Heap A) (b : Ptr) (xs ys : Cells A) (a : Ptr)
      → Linked h b xs (first ys a)
      → Linked h (last b xs) ys a
      → Apart xs ys
      → Linked h b (xs ++ ys) a
  Linked-append h b [] ys a l m apart = m
  Linked-append h b ((p, v) ∷ xs) ys a (ne, e, out, l) m apart = (
    ne,
    rw (first-append xs ys a) e,
    ground (arith, has-append p xs ys, apart p),
    Linked-append h p xs ys a l m (λ q i. apart q (ground arith)),
  )

  pub Linked-split :
      (h : Heap A) (b : Ptr) (xs ys : Cells A) (a : Ptr)
      → Linked h b (xs ++ ys) a
      → Linked h b xs (first ys a) × Linked h (last b xs) ys a × Apart xs ys
  Linked-split h b [] ys a l = (tt, l, λ q i. cc)
  Linked-split h b ((p, v) ∷ xs) ys a (ne, e, out, l) =
      let (front, back, apart) = Linked-split h p xs ys a l in
      (
        (ne, rw (← first-append xs ys a) e, ground (arith, has-append p xs ys), front),
        back,
        λ q i. ground (arith, has-append p xs ys, apart q),
      )

  -- The previous pointer of the first node of a chain can be set.
  pub set_prev-Linked :
      (h : Heap A) (b b' : Ptr) (p : Ptr) (v : A) (xs : Cells A) (a : Ptr)
      → Linked h b ((p, v) ∷ xs) a
      → (g : Heap A) × (set_prev h p b' ≡ ok g)
        × Linked g b' ((p, v) ∷ xs) a
        × SameOutside ((p, v) ∷ xs) h g
  unfolding set_prev
  set_prev-Linked h b b' p v xs a (ne, e, out, l) = (
    write h p (some (node v (first xs a) b')),
    ground arith,
    (ne, ground arith, out, Linked-frame h _ p xs a (λ q i. ground arith) l),
    λ q o. ground arith,
  )

  pub set_prev_cell :
      (h : Heap A) (p : Ptr) (v : A) (n b b' : Ptr)
      → p ≢ null
      → h p ≡ some (node v n b)
      → (g : Heap A) × (set_prev h p b' ≡ ok g)
        × (g p ≡ some (node v n b'))
        × SameOutside ((p, v) ∷ []) h g
  unfolding set_prev
  set_prev_cell h p v n b b' ne e =
      (write h p (some (node v n b')), ground arith, ground arith, λ q o. ground arith)

  pub set_next_cell :
      (h : Heap A) (p : Ptr) (v : A) (n b a' : Ptr)
      → p ≢ null
      → h p ≡ some (node v n b)
      → (g : Heap A) × (set_next h p a' ≡ ok g)
        × (g p ≡ some (node v a' b))
        × SameOutside ((p, v) ∷ []) h g
  unfolding set_next
  set_next_cell h p v n b a' ne e =
      (write h p (some (node v a' b)), ground arith, ground arith, λ q o. ground arith)

  -- The next pointer of the last node of a chain can be set.
  pub set_next-Linked :
      (h : Heap A) (b : Ptr) (p : Ptr) (v : A) (xs : Cells A) (a a' : Ptr)
      → Linked h b ((p, v) ∷ xs) a
      → (g : Heap A) × (set_next h (last p xs) a' ≡ ok g)
        × Linked g b ((p, v) ∷ xs) a'
        × SameOutside ((p, v) ∷ xs) h g
  set_next-Linked h b p v [] a a' (ne, e, out, l) =
      let (g, ran, here, same) = set_next_cell h p v a b a' ne e in
      (g, ran, (ne, here, out, tt), same)
  set_next-Linked h b p v ((q, w) ∷ xs) a a' (ne, e, out, l) =
      let (g, ran, linked, same) = set_next-Linked h p q w xs a a' l in
      (g, ran, (ne, same p out ∙ e, out, linked), λ r o. same r (ground arith))

  -- A node among `xs` is not a node outside.
  pub has_other : (q p : Ptr) (xs : Cells A) → has q xs ≡ true → has p xs ≡ false → (q == p) ≡ false
  has_other q p xs i o = elim (Bool-cases (q == p)) [
    | inl hit ↦
        let e : q ≡ p = ground arith in
        absurd (false≢true (sym o ∙ subst (λ t. has t xs ≡ true) e i))
    | inr miss ↦ miss
  ]

  pub load-ok : (h : Heap A) (p : Ptr) (n : Node A) → p ≢ null → h p ≡ some n → load h p ≡ ok n
  unfolding load
  load-ok h p n ne e = ground arith

  pub free-ok :
      (h : Heap A) (p : Ptr) (n : Node A) → p ≢ null → h p ≡ some n → free h p ≡ ok (write h p none)
  unfolding free
  free-ok h p n ne e = ground arith

  -- A write of what is there already.
  pub set_next-same :
      (h : Heap A) (p : Ptr) (v : A) (n b : Ptr)
      → p ≢ null
      → h p ≡ some (node v n b)
      → (g : Heap A) × (set_next h p n ≡ ok g) × ((q : Ptr) → g q ≡ h q)
  unfolding set_next
  set_next-same h p v n b ne e = (write h p (some (node v n b)), ground arith, λ q. ground arith)

pub not_null : (p : Ptr) → p ≢ null → (p == null) ≡ false
not_null p h = ground arith

pub eq_self : (p : Ptr) → (p == p) ≡ true
eq_self p = ground arith
