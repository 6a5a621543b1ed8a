-- ===== src/Uring/Ring/Completion.antt =====
-- The completion ring is a queue of CQEs, which the kernel fills.
use linux_modern_io_multiple.Prelude.{
  ℕ, suc, ◌+◌, ◌%◌, ◌^◌, ◌<◌, ◌≤◌, ◌≡◌, ◌≢◌, sym, ap, ◌∙◌, arith, List, [], ◌∷◌, some, none,
  get_elem?, set, length, length-set, length-append, get_elem?-set_self, get_elem?-set_ne, subst,
  ◌++◌, bit_and, ◌==◌, false,
}
use linux_modern_io_multiple.Prelude.Run.{ok}
use linux_modern_io_multiple.Uring.Ring.{Iou, Cqe, iou_get_cqe, sub_u32}
use linux_modern_io_multiple.Uring.Ring.Masking.{IsRing, position, slot-lt, slot-ne, size_le}

-- From the counter `n` steps behind the head on, the CQEs are `xs`.
abbrev pub Posted : ℕ → ℕ → List Cqe → ℕ → List Cqe → Type 0
Posted head mask cqes n [] = Unit
Posted head mask cqes n (x ∷ xs) =
    (get_elem? cqes (bit_and (position head n) mask) ≡ some x) × Posted head mask cqes (suc n) xs

-- What the kernel has posted and the program has yet to take, oldest first.
pub record IsPosted (iou : Iou) (xs : List Cqe) : Type 0 where
  pub size : ℕ
  pub ring : IsRing size iou.cq_mask
  pub head : iou.cq_head < 2 ^ 32
  pub tail : iou.cq_tail ≡ position iou.cq_head (length xs)
  pub cqes : length iou.cqes ≡ size
  pub room : length xs ≤ size
  pub posted : Posted iou.cq_head iou.cq_mask iou.cqes 0 xs

-- The completion ring is the same.
abbrev pub SameCompletions : Iou → Iou → Type 0
SameCompletions a b =
    (a.cq_head ≡ b.cq_head) × (a.cq_tail ≡ b.cq_tail) × (a.cq_mask ≡ b.cq_mask) × (a.cqes ≡ b.cqes)

-- An empty ring gives no CQE, and stays as it is.
pub iou_get_cqe-none : (iou : Iou) → IsPosted iou [] → iou_get_cqe iou ≡ ok (none, iou)
unfolding iou_get_cqe
iou_get_cqe-none iou q =
    let e : iou.cq_head ≡ iou.cq_tail = omega (arith, q.tail, q.head) in ground arith

Posted-shift :
    (head mask : ℕ) (cqes : List Cqe) (n : ℕ) (xs : List Cqe)
    → Posted head mask cqes (suc n) xs
    → Posted ((head + 1) % 2 ^ 32) mask cqes n xs
Posted-shift head mask cqes n [] q = tt
Posted-shift head mask cqes n (x ∷ xs) (e, q) =
    let same : position ((head + 1) % 2 ^ 32) n ≡ position head (suc n) = omega arith in
    (rw same e, Posted-shift head mask cqes (suc n) xs q)

pub SameCompletions-trans :
    (a b c : Iou) → SameCompletions a b → SameCompletions b c → SameCompletions a c
SameCompletions-trans a b c (h, t, m, q) (h', t', m', q') = (h ∙ h', t ∙ t', m ∙ m', q ∙ q')

pub IsPosted-same :
    (a b : Iou) (xs : List Cqe) → SameCompletions a b → IsPosted b xs → IsPosted a xs
IsPosted-same a b xs (h, t, m, c) q = record {
  size = q.size;
  ring = rw m q.ring;
  head = rw h q.head;
  tail = rw (t, h) q.tail;
  cqes = rw c q.cqes;
  room = q.room;
  posted = rw (h, m, c) q.posted;
}

-- The ring once a CQE is taken.
abbrev pub consumed : Iou → Iou
consumed iou = record iou { cq_head = (iou.cq_head + 1) % 2 ^ 32 }

-- A ring that is not empty gives the oldest CQE, which is consumed, and the others stay.
pub iou_get_cqe-some :
    (iou : Iou) (x : Cqe) (xs : List Cqe)
    → IsPosted iou (x ∷ xs)
    → (iou_get_cqe iou ≡ ok (some x, consumed iou)) × IsPosted (consumed iou) xs
unfolding iou_get_cqe
iou_get_cqe-some iou x xs q =
    let here : position iou.cq_head 0 ≡ iou.cq_head = omega (arith, q.head) in
    let e : get_elem? iou.cqes (bit_and iou.cq_head iou.cq_mask) ≡ some x =
      ap (λ t. get_elem? iou.cqes (bit_and t iou.cq_mask)) (sym here) ∙ q.posted.0 in
    let other : (iou.cq_head == iou.cq_tail) ≡ false = differ in
    (
      simp (other, e),
      record {
        size = q.size;
        ring = q.ring;
        head = omega arith;
        tail = omega (arith, q.tail);
        cqes = q.cqes;
        room = omega (arith, q.room);
        posted = Posted-shift iou.cq_head iou.cq_mask iou.cqes 0 xs q.posted.1;
      },
    )
  where
    ne : iou.cq_head ≢ iou.cq_tail
    ne = omega (arith, q.tail, q.head, q.room, size_le q.ring)

    differ : (iou.cq_head == iou.cq_tail) ≡ false
    differ = ground (arith, ne)

-- The kernel posts a CQE.
unfoldable pub posts : Iou → Cqe → Iou
posts iou cqe = record iou {
  cqes = set iou.cqes (bit_and iou.cq_tail iou.cq_mask) cqe;
  cq_tail = (iou.cq_tail + 1) % 2 ^ 32;
}

Posted-set :
    (size head mask m : ℕ) (cqes : List Cqe) (y : Cqe) (n : ℕ) (xs : List Cqe)
    → IsRing size mask
    → n + length xs ≤ m
    → m < n + size
    → Posted head mask cqes n xs
    → Posted head mask (set cqes (bit_and (position head m) mask) y) n xs
Posted-set size head mask m cqes y n [] r h k q = tt
Posted-set size head mask m cqes y n (z ∷ xs) r h k (e, q) =
    let other = slot-ne r head n m (omega arith) k in
    (
      get_elem?-set_ne cqes y (λ p. other (sym p)) ∙ e,
      Posted-set size head mask m cqes y (suc n) xs r (omega arith) (omega arith) q,
    )

Posted-append_one :
    (head mask : ℕ) (cqes : List Cqe) (x : Cqe) (n m : ℕ) (xs : List Cqe)
    → n + length xs ≡ m
    → Posted head mask cqes n xs
    → get_elem? cqes (bit_and (position head m) mask) ≡ some x
    → Posted head mask cqes n (xs ++ (x ∷ []))
Posted-append_one head mask cqes x n m [] h q e =
    let here : m ≡ n = omega arith in
    (subst (λ t. get_elem? cqes (bit_and (position head t) mask) ≡ some x) here e, tt)
Posted-append_one head mask cqes x n m (z ∷ xs) h (f, q) e =
    (f, Posted-append_one head mask cqes x (suc n) m xs (omega arith) q e)

-- A CQE that the kernel posts while there is room comes behind the others.
pub posts-IsPosted :
    (iou : Iou) (x : Cqe) (xs : List Cqe)
    → IsPosted iou xs
    → length xs < length iou.cqes
    → IsPosted (posts iou x) (xs ++ (x ∷ []))
unfolding posts
posts-IsPosted iou x xs q room = record {
  size = q.size;
  ring = q.ring;
  head = q.head;
  tail = omega (arith, q.tail, q.head, longer);
  cqes = length-set iou.cqes (bit_and iou.cq_tail iou.cq_mask) x ∙ q.cqes;
  room = omega (arith, longer, q.cqes);
  posted =
      subst
        (λ t.
          Posted iou.cq_head iou.cq_mask (set iou.cqes (bit_and t iou.cq_mask) x) 0
            (xs ++ (x ∷ [])))
        (sym q.tail)
        (Posted-append_one iou.cq_head iou.cq_mask (set iou.cqes at x) x 0 (length xs) xs
          (omega arith)
          (Posted-set q.size iou.cq_head iou.cq_mask (length xs) iou.cqes x 0 xs q.ring
            (omega arith) (omega (arith, q.cqes)) q.posted)
          (get_elem?-set_self iou.cqes at x
            (rw q.cqes (slot-lt q.ring (position iou.cq_head (length xs))))));
}
  where
    at : ℕ
    at = bit_and (position iou.cq_head (length xs)) iou.cq_mask

    longer : length (xs ++ (x ∷ [])) ≡ suc (length xs)
    longer = omega (arith, length-append xs (x ∷ []))

-- The count of CQEs between the two counters is that of the queue, also after a wrap.
pub posted_lem :
    (iou : Iou) (xs : List Cqe) → IsPosted iou xs → sub_u32 iou.cq_tail iou.cq_head ≡ length xs
posted_lem iou xs q = omega (arith, q.tail, q.head, q.room, size_le q.ring)
