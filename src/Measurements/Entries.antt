-- ===== src/Measurements/Entries.antt =====
-- The container as the list of its entries.
use Prim.Native.Nat.add
use linux_modern_io_multiple.Prelude.{
  ℕ, zero, suc, ◌+◌, ◌*◌, ◌^◌, ◌≤◌, ◌<◌, ◌≡◌, ◌≢◌, refl, sym, ap, arith, List, [], ◌∷◌, ◌++◌, ◌⊎◌,
  none, some, length, take, drop, length-append, length-take, length-drop,
}
use linux_modern_io_multiple.Prelude.Int.{pos, negsuc}
use linux_modern_io_multiple.Prelude.Run.{ok, fault}
use linux_modern_io_multiple.Measurements.{
  Container, Block, requested, pcontainer_create, pcontainer_store, pcontainer_free,
}

-- The first `n` runs of `k` bytes.
unfoldable pub chunks : ℕ → ℕ → List ℕ → List (List ℕ)
chunks zero k b = []
chunks (suc n) k b = take k b ∷ chunks n k (drop k b)

abbrev pub bytes_of : Block → List ℕ
bytes_of none = []
bytes_of (some b) = b

unfoldable pub entries : Container → List (List ℕ)
unfolding chunks
entries c = chunks c.size c.entry_size (bytes_of c.ptr)

-- The block is there and has room for all entries.
pub record IsValid (c : Container) : Type 0 where
  pub block : List ℕ
  pub allocated : c.ptr ≡ some block
  pub room : c.entry_size * c.capacity ≤ length block
  pub within : c.size ≤ c.capacity

-- The bytes after `bytes` is written at offset `off`.
abbrev overwritten : ℕ → List ℕ → List ℕ → List ℕ
overwritten off bytes b = take off b ++ (bytes ++ drop (off + length bytes) b)

length-overwritten :
    (off : ℕ) (v b : List ℕ) → off + length v ≤ length b → length (overwritten off v b) ≡ length b
length-overwritten off v b h = omega (
  arith,
  length-append (take off b) (v ++ drop (off + length v) b),
  length-append v (drop (off + length v) b),
  length-take off b,
  length-drop (off + length v) b,
)

take-append : (k : ℕ) (v w : List ℕ) → k ≡ length v → take k (v ++ w) ≡ v
take-append zero [] w e = refl
take-append zero (x ∷ v) w e = absurd (omega arith)
take-append (suc k) [] w e = absurd (omega arith)
take-append (suc k) (x ∷ v) w e = ap (λ t. x ∷ t) (take-append k v w (omega arith))

-- A write behind the first `k` bytes leaves those, and is a write to the rest.
overwritten-split :
    (k off : ℕ) (v b : List ℕ)
    → k + off + length v ≤ length b
    → (take k (overwritten (k + off) v b) ≡ take k b)
      × (drop k (overwritten (k + off) v b) ≡ overwritten off v (drop k b))
overwritten-split zero off v b h = rw add.zero (refl, refl)
overwritten-split (suc k) off v [] h = absurd (omega arith)
overwritten-split (suc k) off v (x ∷ b) h =
    let (front, back) = overwritten-split k off v b (omega arith) in
    rw (add.suc k off, add.suc (k + off) (length v)) (ap (λ t. x ∷ t) front, back)

zero-mul : (k : ℕ) → 0 * k ≡ 0
zero-mul k = omega arith

suc-mul : (n k : ℕ) → suc n * k ≡ k + n * k
suc-mul n k = omega arith

-- Writing the entry behind the first `n` appends it and leaves those.
chunks-overwritten :
    (n k : ℕ) (v b : List ℕ)
    → k ≡ length v
    → n * k + k ≤ length b
    → chunks (suc n) k (overwritten (n * k) v b) ≡ chunks n k b ++ (v ∷ [])
unfolding chunks
chunks-overwritten zero k v b e h =
    rw (zero-mul k) (ap (λ t. t ∷ []) (take-append k v (drop (0 + length v) b) e))
chunks-overwritten (suc n) k v b e h =
    let (front, back) = overwritten-split k (n * k) v b (omega arith) in
    let rest = chunks-overwritten n k v (drop k b) e (omega (arith, length-drop k b)) in
    rw (suc-mul n k, front, back) (ap (λ t. take k b ∷ t) rest)

entry_fits : (n cap k : ℕ) → n < cap → n * k + k ≤ k * cap
entry_fits n cap k h = grind arith

-- A container that `meas_pcontainer_create` returns holds nothing and has room for all entries, if
-- the size that it asks `malloc` for does not wrap and `malloc` gives at least that.
pub pcontainer_create-IsValid :
    (entry_size capacity : ℕ) (b : List ℕ)
    → entry_size * capacity < 2 ^ 64
    → requested entry_size capacity ≤ length b
    → (c : Container) × (pcontainer_create entry_size capacity (some b) ≡ ok c)
      × IsValid c
      × (entries c ≡ [])
      × (c.entry_size ≡ entry_size)
      × (c.capacity ≡ capacity)
unfolding pcontainer_create entries
pcontainer_create-IsValid k cap b small room = (
  record { entry_size = k; capacity = cap; size = 0; ptr = some b },
  refl,
  record { block = b; allocated = refl; room = omega arith; within = omega arith },
  refl,
  refl,
  refl,
)

-- What a store of an entry of the right size does while there is room: it returns 0, appends the
-- entry, leaves those before it, and keeps the invariant.
pub pcontainer_store-append :
    (c : Container) (holder : List ℕ)
    → IsValid c
    → length holder ≡ c.entry_size
    → c.size ≢ c.capacity
    → (c' : Container) × (pcontainer_store c holder ≡ ok (pos 0, c'))
      × IsValid c'
      × (entries c' ≡ entries c ++ (holder ∷ []))
      × (c'.capacity ≡ c.capacity)
      × (c'.entry_size ≡ c.entry_size)
      × (c'.size ≡ suc c.size)
unfolding pcontainer_store entries
pcontainer_store-append c holder v fits room = (
  record c { ptr = some (overwritten (c.size * length holder) holder v.block); size = c.size + 1 },
  ground (arith, v.allocated, inside),
  record {
    block = overwritten (c.size * length holder) holder v.block;
    allocated = refl;
    room = omega (arith, v.room, length-overwritten (c.size * length holder) holder v.block inside);
    within = omega (arith, v.within);
  },
  rw (fits, v.allocated, bump)
      (rw fits at
        (chunks-overwritten c.size c.entry_size holder v.block (sym fits) (rw fits at inside))),
  refl,
  refl,
  omega arith,
)
  where
    bump : c.size + 1 ≡ suc c.size
    bump = omega arith

    inside : c.size * length holder + length holder ≤ length v.block
    inside =
        rw fits (
          omega
            (arith, v.room, entry_fits c.size c.capacity c.entry_size (omega (arith, v.within))))

-- A store into a full container, or of an entry of another size, returns -1 and changes nothing.
pub pcontainer_store-refused :
    (c : Container) (holder : List ℕ)
    → (length holder ≢ c.entry_size) ⊎ (c.size ≡ c.capacity)
    → pcontainer_store c holder ≡ ok (negsuc 0, c)
unfolding pcontainer_store
pcontainer_store-refused c holder h = ground arith

-- `meas_pcontainer_free` leaves the capacity: a store after it is not refused, and writes through
-- NULL.
pub pcontainer_store-pcontainer_free :
    (c : Container) (holder : List ℕ)
    → length holder ≡ c.entry_size
    → c.capacity ≢ 0
    → pcontainer_store (pcontainer_free c) holder ≡ fault
unfolding pcontainer_store pcontainer_free
pcontainer_store-pcontainer_free c holder e h = ground arith
