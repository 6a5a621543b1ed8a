-- ===== src/Uring/Ring/Submission.antt =====
-- The submission ring is a bounded queue of SQEs.
use linux_modern_io_multiple.Prelude.{
  ℕ, suc, ◌+◌, ◌%◌, ◌^◌, ◌<◌, ◌≤◌, ◌≡◌, refl, sym, ap, subst, ◌∙◌, arith, List, [], ◌∷◌, ◌++◌, some,
  get_elem?, set, length, length-set, length-append, get_elem?-set_self, get_elem?-set_ne, bit_and,
  leb, true, false,
}
use linux_modern_io_multiple.Prelude.Int.{ℤ, pos}
use linux_modern_io_multiple.Prelude.Run.{ok, ◌>>=◌, >>=-returned}
use linux_modern_io_multiple.Links.{Ptr}
use linux_modern_io_multiple.Pollfd.{store}
use linux_modern_io_multiple.Uring.Ring.{
  Iou, Sqe, IouOp, zero_sqe, sub_u32, Acquired, iou_acquire_sqe, iou_submit_sqe, config_sqe,
  submit_acquired, iou_config_and_submit, ebusy,
}
use linux_modern_io_multiple.Uring.Ring.Completion.{SameCompletions}
use linux_modern_io_multiple.Uring.Ring.Masking.{IsRing, position, slot-lt, slot-ne, size_le}

abbrev pub slot : ℕ → ℕ → ℕ → ℕ
slot head mask n = bit_and (position head n) mask

-- From the counter `n` steps behind the head on, the entries are `xs`: the array leads each
-- counter's slot to the SQE in the same slot.
abbrev pub Queued : ℕ → ℕ → List ℕ → List Sqe → ℕ → List Sqe → Type 0
Queued head mask array sqes n [] = Unit
Queued head mask array sqes n (x ∷ xs) =
    (get_elem? array (slot head mask n) ≡ some (slot head mask n))
    × (get_elem? sqes (slot head mask n) ≡ some x)
    × Queued head mask array sqes (suc n) xs

-- What the kernel has yet to take, oldest first.
pub record IsQueue (iou : Iou) (xs : List Sqe) : Type 0 where
  pub ring : IsRing iou.ring_size iou.sq_mask
  pub array : length iou.sq_array ≡ iou.ring_size
  pub sqes : length iou.sqes ≡ iou.ring_size
  pub head : iou.sq_head < 2 ^ 32
  pub tail : iou.sq_tail ≡ position iou.sq_head (length xs)
  pub room : length xs ≤ iou.ring_size
  pub queued : Queued iou.sq_head iou.sq_mask iou.sq_array iou.sqes 0 xs

-- The submission ring is the same.
abbrev pub SameSubmissions : Iou → Iou → Type 0
SameSubmissions a b =
    (a.ring_size ≡ b.ring_size)
    × (a.sq_head ≡ b.sq_head)
    × (a.sq_tail ≡ b.sq_tail)
    × (a.sq_mask ≡ b.sq_mask)
    × (a.sq_array ≡ b.sq_array)
    × (a.sqes ≡ b.sqes)

pub IsQueue-same : (a b : Iou) (xs : List Sqe) → SameSubmissions a b → IsQueue b xs → IsQueue a xs
IsQueue-same a b xs (r, h, t, m, c, e) q = record {
  ring = rw (r, m) q.ring;
  array = rw (r, c) q.array;
  sqes = rw (r, e) q.sqes;
  head = rw h q.head;
  tail = rw (t, h) q.tail;
  room = rw r q.room;
  queued = rw (h, m, c, e) q.queued;
}

-- The count that `iou_acquire_sqe` computes is the length of the queue, also after a wrap.
pub count_lem :
    (iou : Iou) (xs : List Sqe) → IsQueue iou xs → sub_u32 iou.sq_tail iou.sq_head ≡ length xs
count_lem iou xs q = omega (arith, q.tail, q.head, q.room, size_le q.ring)

-- Writes to a slot behind the entries leave them.
Queued-set :
    (size head mask m : ℕ) (array : List ℕ) (sqes : List Sqe) (x y : Sqe) (n : ℕ) (xs : List Sqe)
    → IsRing size mask
    → n + length xs ≤ m
    → m < n + size
    → Queued head mask array sqes n xs
    → Queued head mask
        (set array (slot head mask m) (slot head mask m))
        (set (set sqes (slot head mask m) y) (slot head mask m) x)
        n
        xs
Queued-set size head mask m array sqes x y n [] r h k q = tt
Queued-set size head mask m array sqes x y n (z ∷ xs) r h k (a, e, q) =
    let other = slot-ne r head n m (omega arith) k in
    let s = slot head mask m in
    (
      get_elem?-set_ne array s (λ p. other (sym p)) ∙ a,
      get_elem?-set_ne (set sqes s y) x (λ p. other (sym p))
          ∙ get_elem?-set_ne sqes y (λ p. other (sym p))
          ∙ e,
      Queued-set size head mask m array sqes x y (suc n) xs r (omega arith) (omega arith) q,
    )

Queued-append_one :
    (head mask : ℕ) (array : List ℕ) (sqes : List Sqe) (x : Sqe) (n m : ℕ) (xs : List Sqe)
    → n + length xs ≡ m
    → Queued head mask array sqes n xs
    → get_elem? array (slot head mask m) ≡ some (slot head mask m)
    → get_elem? sqes (slot head mask m) ≡ some x
    → Queued head mask array sqes n (xs ++ (x ∷ []))
Queued-append_one head mask array sqes x n m [] h q a e =
    let here : m ≡ n = omega arith in
    (
      subst (λ t. get_elem? array (slot head mask t) ≡ some (slot head mask t)) here a,
      subst (λ t. get_elem? sqes (slot head mask t) ≡ some x) here e,
      tt,
    )
Queued-append_one head mask array sqes x n m (z ∷ xs) h (b, f, q) a e =
    (b, f, Queued-append_one head mask array sqes x (suc n) m xs (omega arith) q a e)

module _ (iou : Iou) (xs : List Sqe) (q : IsQueue iou xs) where
  -- The ring refuses exactly when it holds as many SQEs as it has slots.
  full_lem : length xs ≡ iou.ring_size → leb iou.ring_size (sub_u32 iou.sq_tail iou.sq_head) ≡ true
  full_lem full = let e = count_lem iou xs q in ground arith

  room_lem : length xs < iou.ring_size → leb iou.ring_size (sub_u32 iou.sq_tail iou.sq_head) ≡ false
  room_lem room = let e = count_lem iou xs q in ground arith

-- A full ring takes no further operation: `-EBUSY`, and nothing changes.
pub iou_config_and_submit-full :
    (n : ℕ) (iou : Iou) (xs : List Sqe) (p : Ptr) (op : IouOp)
    → IsQueue iou xs
    → length xs ≡ iou.ring_size
    → iou_config_and_submit n iou p op ≡ ok (ebusy, iou)
unfolding iou_config_and_submit iou_acquire_sqe submit_acquired
iou_config_and_submit-full n iou xs p op q full = simp (full_lem iou xs q full)

store_lem {ℓ} :
    {A : Type ℓ} (xs : List A) (i : ℕ) (a : A) → i < length xs → store xs i a ≡ ok (set xs i a)
store_lem xs i a h = ground arith

-- The rings once the SQE is written and submitted.
appended : Iou → Sqe → Iou
appended iou sqe =
    let s = bit_and iou.sq_tail iou.sq_mask in
    record iou {
      sq_array = set iou.sq_array s s;
      sqes = set (set iou.sqes s zero_sqe) s sqe;
      sq_tail = (iou.sq_tail + 1) % 2 ^ 32;
    }

iou_config_and_submit-appended :
    (n : ℕ) (iou : Iou) (xs : List Sqe) (p : Ptr) (op : IouOp) (sqe : Sqe)
    → IsQueue iou xs
    → length xs < iou.ring_size
    → config_sqe n p op.op op.info (record zero_sqe { user_data = p }) ≡ ok sqe
    → iou_config_and_submit n iou p op ≡ ok (pos 0, appended iou sqe)
unfolding iou_config_and_submit iou_acquire_sqe submit_acquired iou_submit_sqe appended
iou_config_and_submit-appended n iou xs p op sqe q room e =
    let s = bit_and iou.sq_tail iou.sq_mask in
    let h = slot-lt q.ring iou.sq_tail in
    let a : s < length iou.sq_array = rw q.array h in
    let b : s < length iou.sqes = rw q.sqes h in
    let c : s < length (set iou.sqes s zero_sqe) = rw (length-set iou.sqes s zero_sqe) b in
    simp (
      room_lem iou xs q room,
      store_lem iou.sqes s zero_sqe b,
      e,
      store_lem (set iou.sqes s zero_sqe) s sqe c,
      store_lem iou.sq_array s s a,
    )

appended-IsQueue :
    (iou : Iou) (xs : List Sqe) (sqe : Sqe)
    → IsQueue iou xs
    → length xs < iou.ring_size
    → IsQueue (appended iou sqe) (xs ++ (sqe ∷ []))
unfolding appended
appended-IsQueue iou xs sqe q room = record {
  ring = q.ring;
  array = length-set iou.sq_array s s ∙ q.array;
  sqes = length-set (set iou.sqes s zero_sqe) s sqe ∙ length-set iou.sqes s zero_sqe ∙ q.sqes;
  head = q.head;
  tail = omega (arith, q.tail, q.head, longer);
  room = omega (arith, longer);
  queued =
      subst
        (λ t.
          Queued iou.sq_head iou.sq_mask (set iou.sq_array t t)
            (set (set iou.sqes t zero_sqe) t sqe) 0 (xs ++ (sqe ∷ [])))
        (sym at_tail) queued';
}
  where
    s : ℕ
    s = bit_and iou.sq_tail iou.sq_mask

    longer : length (xs ++ (sqe ∷ [])) ≡ suc (length xs)
    longer = omega (arith, length-append xs (sqe ∷ []))

    at_tail : s ≡ slot iou.sq_head iou.sq_mask (length xs)
    at_tail = ap (λ t. bit_and t iou.sq_mask) q.tail

    at : slot iou.sq_head iou.sq_mask (length xs) < iou.ring_size
    at = slot-lt q.ring (position iou.sq_head (length xs))

    queued' :
        Queued iou.sq_head iou.sq_mask
          (set iou.sq_array
            (slot iou.sq_head iou.sq_mask (length xs))
            (slot iou.sq_head iou.sq_mask (length xs)))
          (set
            (set iou.sqes (slot iou.sq_head iou.sq_mask (length xs)) zero_sqe)
            (slot iou.sq_head iou.sq_mask (length xs))
            sqe)
          0
          (xs ++ (sqe ∷ []))
    queued' =
        let k = slot iou.sq_head iou.sq_mask (length xs) in
        let b : k < length (set iou.sqes k zero_sqe) =
          rw (length-set iou.sqes k zero_sqe, q.sqes) at in
        Queued-append_one iou.sq_head iou.sq_mask (set iou.sq_array k k)
          (set (set iou.sqes k zero_sqe) k sqe) sqe 0 (length xs) xs (omega arith)
          (Queued-set iou.ring_size iou.sq_head iou.sq_mask (length xs) iou.sq_array iou.sqes sqe
            zero_sqe 0 xs q.ring (omega arith) (omega arith) q.queued)
          (get_elem?-set_self iou.sq_array k k (rw q.array at))
          (get_elem?-set_self (set iou.sqes k zero_sqe) k sqe b)

pub iou_config_and_submit-append :
    (n : ℕ) (iou : Iou) (xs : List Sqe) (p : Ptr) (op : IouOp) (sqe : Sqe)
    → IsQueue iou xs
    → length xs < iou.ring_size
    → config_sqe n p op.op op.info (record zero_sqe { user_data = p }) ≡ ok sqe
    → (iou' : Iou) × (iou_config_and_submit n iou p op ≡ ok (pos 0, iou'))
      × IsQueue iou' (xs ++ (sqe ∷ []))
      × (iou'.ring_size ≡ iou.ring_size)
      × SameCompletions iou' iou
unfolding appended
iou_config_and_submit-append n iou xs p op sqe q room e = (
  appended iou sqe,
  iou_config_and_submit-appended n iou xs p op sqe q room e,
  appended-IsQueue iou xs sqe q room,
  refl,
  (refl, refl, refl, refl),
)

-- Where there is room and the call returned, the operation had an SQE.
pub iou_config_and_submit-config :
    (n : ℕ) (iou : Iou) (xs : List Sqe) (p : Ptr) (op : IouOp) {r : ℤ × Iou}
    → IsQueue iou xs
    → length xs < iou.ring_size
    → iou_config_and_submit n iou p op ≡ ok r
    → (sqe : Sqe) × (config_sqe n p op.op op.info (record zero_sqe { user_data = p }) ≡ ok sqe)
unfolding iou_config_and_submit iou_acquire_sqe submit_acquired
iou_config_and_submit-config n iou xs p op {r} q room ran =
    let s = bit_and iou.sq_tail iou.sq_mask in
    let b : s < length iou.sqes = rw q.sqes (slot-lt q.ring iou.sq_tail) in
    let cleared = set iou.sqes s zero_sqe in
    let acquired : Acquired = record { tail = iou.sq_tail; index = s } in
    let there : (config_sqe n p op.op op.info (record zero_sqe { user_data = p }) >>= λ sqe.
    store cleared s sqe >>= λ sqes.
    iou_submit_sqe (record iou { sqes = sqes }) acquired >>= λ iou'. ok (pos 0, iou'))
        ≡ ok r =
      simp (room_lem iou xs q room, store_lem iou.sqes s zero_sqe b) at ran in
    let (sqe, e, _) = >>=-returned _ _ there in (sqe, e)
