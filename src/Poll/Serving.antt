-- ===== src/Poll/Serving.antt =====
-- What holds before each turn of the loop of `service_events`, and how a turn keeps it.
use linux_modern_io_multiple.Prelude.{
  ℕ, zero, suc, ◌+◌, ◌^◌, ◌<◌, ◌≤◌, ◌≡◌, ◌≢◌, ◌∙◌, ◌⊎◌, inl, inr, sym, ap, arith, false, ◌&&◌, List,
  [], ◌∷◌, ◌++◌, some, get_elem?, set, ltb, Bool-cases, ℕ_discrete, take,
}
use linux_modern_io_multiple.Prelude.Arrays.{zip, get_elem?_lt, get_elem?-take, get_elem?-zip}
use linux_modern_io_multiple.Pollfd.{Ptr, Pollfd, PollfdVector, no_fd}
use linux_modern_io_multiple.Pollfd.Invariant.{IsValid}
use linux_modern_io_multiple.Pollfd.Contents.{Entry, contents}
use linux_modern_io_multiple.Poll.{after, before}
use linux_modern_io_multiple.Poll.Entries.{cleared, entry-IsAt}
use linux_modern_io_multiple.Poll.Serviced.{Removed, Kept}
use linux_modern_io_multiple.Poll.Spare.{Spare}
use linux_modern_io_multiple.Poll.Ready.{
  weight, ready, swap_remove-get, swap_remove-from, set-get, set-get_here, append-get, none_ready,
}

-- The ready entries among `xs` all have a descriptor.
abbrev pub Open : List Entry → Type 0
Open xs = (j : ℕ) (y : Entry) → get_elem? xs j ≡ some y → weight y ≢ 0 → (y.0).fd ≢ no_fd

-- No entry at an index that `P` holds of is ready.
abbrev pub Quiet : (ℕ → Type 0) → List Entry → Type 0
Quiet P xs = (j : ℕ) (y : Entry) → P j → get_elem? xs j ≡ some y → weight y ≡ 0

-- Before the loop looks at index `i`, with `k` events handled, of a vector that had `size` entries.
pub record Serving (size no_events i k : ℕ) (v : PollfdVector) : Type 0 where
  pub valid : IsValid v
  pub count : k + ready (contents v) ≡ no_events
  pub behind : Quiet (λ j. j < i) (contents v)
  pub beyond : Quiet (λ j. size ≤ j) (contents v)
  pub spare : Spare size v
  pub opened : Open (contents v)
  pub room : v.size + ready (contents v) ≤ v.capacity
  pub within : i ≤ size

get-take_lt : (n j : ℕ) (xs : List Entry) (y : Entry) → get_elem? (take n xs) j ≡ some y → j < n
get-take_lt zero j xs y e = cc
get-take_lt (suc n) j [] y e = cc
get-take_lt (suc n) zero (x ∷ xs) y e = omega arith
get-take_lt (suc n) (suc j) (x ∷ xs) y e = omega (arith, get-take_lt n j xs y e)

pub contents_lt :
    (v : PollfdVector) (j : ℕ) (y : Entry) → get_elem? (contents v) j ≡ some y → j < v.size
unfolding contents
contents_lt v j y e = get-take_lt v.size j (zip v.slots v.pd) y e

leq_or : (j n : ℕ) → (j < n) ⊎ (n ≤ j)
leq_or j n = elim (Bool-cases (ltb j n)) [
  | inl below ↦ inl (ground arith)
  | inr not_below ↦ inr (ground arith)
]

idle_weight : (y : Entry) → (y.0).revents ≡ 0 → weight y ≡ 0
unfolding weight
idle_weight (x, q) idle = simp idle

pub active_weight : (y : Entry) → (y.0).revents ≢ 0 → weight y ≢ 0
unfolding weight
active_weight (x, q) active = ground arith

module _ (size no_events : ℕ) (small : size < 2 ^ 32) where
  pub finished :
      (i k : ℕ) (v : PollfdVector)
      → Serving size no_events i k v
      → (ltb i size && ltb k no_events) ≡ false
      → (k ≡ no_events) × (ready (contents v) ≡ 0)
  finished i k v w stop = elim (Bool-cases (ltb i size)) [
    | inl inside ↦
        let over : no_events ≤ k = ground arith in
        (omega (arith, over, w.count), omega (arith, over, w.count))
    | inr outside ↦
        let end : size ≤ i = ground arith in
        let none_left = none_ready (contents v) (λ j y e. elim (leq_or j size) [
          | inl below ↦ w.behind j y (omega (arith, below, end)) e
          | inr far ↦ w.beyond j y far e
        ]) in
        (omega (arith, none_left, w.count), none_left)
  ]

  pub passed :
      (i k : ℕ) (v : PollfdVector) (ev : Pollfd)
      → Serving size no_events i k v
      → i < size
      → get_elem? v.slots i ≡ some ev
      → ev.revents ≡ 0
      → Serving size no_events (after i) k v
  passed i k v ev w h at idle = record {
    valid = w.valid;
    count = w.count;
    behind = λ j y below here. elim (ℕ_discrete j i) [
      | yes hit ↦
          let now : get_elem? (contents v) i ≡ some (y.0, y.1) =
            ap (λ t. get_elem? (contents v) t) (sym hit) ∙ here in
          let slot = (entry-IsAt v i y.0 y.1 (contents_lt v i y now) now).slot in
          let same : y.0 ≡ ev = cc in idle_weight y (ap (λ (x : Pollfd). x.revents) same ∙ idle)
      | no miss ↦ w.behind j y (omega (arith, below, miss, h, small)) here
    ];
    beyond = w.beyond;
    spare = w.spare;
    opened = w.opened;
    room = w.room;
    within = omega (arith, h, small);
  }

  pub in_use :
      (i k : ℕ) (v : PollfdVector) (ev : Pollfd)
      → Serving size no_events i k v
      → i < size
      → get_elem? v.slots i ≡ some ev
      → ev.revents ≢ 0
      → (q : Ptr) × (i < v.size) × (get_elem? (contents v) i ≡ some (ev, q))
  unfolding contents
  in_use i k v ev w h at active = elim (leq_or i v.size) [
    | inl inside ↦
        let (q, there) = get_elem?_lt i v.pd (omega (arith, inside, w.valid)) in
        (
          q,
          inside,
          get_elem?-take v.size i (zip v.slots v.pd) inside ∙ get_elem?-zip v.slots v.pd i at there,
        )
    | inr outside ↦ absurd (active (w.spare i ev outside h at))
  ]

  pub removed :
      (i k : ℕ) (ev : Pollfd) (q : Ptr) (v v' : PollfdVector)
      → Serving size no_events i k v
      → i < size
      → ready (contents v') + 1 ≡ ready (contents v)
      → Removed v i (ev, q) v'
      → Serving size no_events (after (before i)) (k + 1) v'
  removed i k ev q v v' w h fewer gone = record {
    valid = gone.valid;
    count = omega (arith, w.count, fewer);
    behind = λ j y below here. w.behind j y (omega (arith, below, h, small)) (
        swap_remove-get (contents v) i j y (λ hit. omega (arith, hit, below, h, small))
          (ap (λ t. get_elem? t j) (sym gone.fewer) ∙ here));
    beyond = λ j y far here. w.beyond j y far (
        swap_remove-get (contents v) i j y (λ hit. omega (arith, hit, far, h))
          (ap (λ t. get_elem? t j) (sym gone.fewer) ∙ here));
    spare = gone.spare size w.spare;
    opened = λ j y here active.
        let (j', there) =
          swap_remove-from (contents v) i j y (ap (λ t. get_elem? t j) (sym gone.fewer) ∙ here) in
        w.opened j' y there active;
    room = omega (arith, w.room, fewer, gone.size, gone.capacity);
    within = omega (arith, h, small);
  }

  -- An entry of a vector that was kept was there before, elsewhere than at `i`, or is not ready.
  Kept-get_elem? :
      (i : ℕ) (ev : Pollfd) (q : Ptr) (v v' : PollfdVector)
      → Kept v i ev q v'
      → (j : ℕ) (y : Entry) → get_elem? (contents v') j ≡ some y
      → ((j ≢ i) × (get_elem? (contents v) j ≡ some y)) ⊎ (weight y ≡ 0)
  Kept-get_elem? i ev q v v' same j y here =
      let now : get_elem? (set (contents v ++ same.new) i (cleared ev, q)) j ≡ some y =
        ap (λ t. get_elem? t j) (sym same.more) ∙ here in
      elim (ℕ_discrete j i) [
        | yes hit ↦ inr (
            idle_weight y (
              sym (
                ap (λ (x : Entry). (x.0).revents)
                  (set-get_here (contents v ++ same.new) i (cleared ev, q) y
                    (ap (λ t. get_elem? (set (contents v ++ same.new) i (cleared ev, q)) t)
                        (sym hit)
                      ∙ now)))))
        | no miss ↦
            elim (append-get (contents v) same.new j y same.quiet
              (set-get (contents v ++ same.new) i j (cleared ev, q) y miss now)) [
                | inl there ↦ inl (miss, there)
                | inr quiet ↦ inr quiet
              ]
      ]

  pub kept :
      (i k : ℕ) (ev : Pollfd) (q : Ptr) (v v' : PollfdVector)
      → Serving size no_events i k v
      → i < size
      → ready (contents v') + 1 ≡ ready (contents v)
      → Kept v i ev q v'
      → Serving size no_events (after i) (k + 1) v'
  kept i k ev q v v' w h fewer same = record {
    valid = same.valid;
    count = omega (arith, w.count, fewer);
    behind = λ j y below here. elim (Kept-get_elem? i ev q v v' same j y here) [
      | inl (other, there) ↦ w.behind j y (omega (arith, below, other, h, small)) there
      | inr quiet ↦ quiet
    ];
    beyond = λ j y far here. elim (Kept-get_elem? i ev q v v' same j y here) [
      | inl (other, there) ↦ w.beyond j y far there
      | inr quiet ↦ quiet
    ];
    spare = same.spare size w.spare;
    opened = λ j y here active. elim (Kept-get_elem? i ev q v v' same j y here) [
      | inl (other, there) ↦ w.opened j y there active
      | inr quiet ↦ absurd (active quiet)
    ];
    room = omega (arith, w.room, fewer, same.size, same.capacity);
    within = omega (arith, h, small);
  }
