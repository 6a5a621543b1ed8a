-- ===== src/Benchmark/Saved.antt =====
-- What a server records is what the loop of `sb_save_bench` prints.
use Prim.Native.Nat.add
use linux_modern_io_multiple.Prelude.{
  ℕ, zero, suc, ◌+◌, ◌-◌, ◌*◌, ◌^◌, ◌≤◌, ◌<◌, ◌≡◌, ◌≢◌, inr, refl, sym, ap, subst, ◌∙◌,
  if◌then◌else◌, ◌==◌, arith, true, false, List, [], ◌∷◌, ◌++◌, some, length, take, drop, map,
  append-nil, append_assoc, length-map, ℕ_discrete,
}
use linux_modern_io_multiple.Prelude.Run.{Run, ok, ◌>>=◌}
use linux_modern_io_multiple.Time.{Timespec, time_delta, timespec_to_ns}
use linux_modern_io_multiple.Measurements.{Container}
use linux_modern_io_multiple.Measurements.Entries.{
  chunks, bytes_of, entries, IsValid, pcontainer_store-append, pcontainer_store-refused,
}
use linux_modern_io_multiple.Measurements.Holder.{
  sizeof_holder, holder_value, create_value_holder, holder_value-create_value_holder,
  length-create_value_holder,
}
use linux_modern_io_multiple.Benchmark.{
  ServerBench, Piece, value, comma, read_at, save_values, sb_record_event, sb_stop,
}

-- The latencies that a container holds, in order.
unfoldable pub latencies : Container → List ℕ
latencies c = map holder_value (entries c)

-- The elements of a JSON array: a comma between two, none at the end.
unfoldable pub separated : List ℕ → List Piece
separated [] = []
separated (x ∷ []) = value x ∷ []
separated (x ∷ (y ∷ r)) = value x ∷ (comma ∷ separated (y ∷ r))

drop-nil : (n : ℕ) → drop {A = ℕ} n [] ≡ []
drop-nil zero = refl
drop-nil (suc n) = refl

drop-drop : (i j : ℕ) (xs : List ℕ) → drop i (drop j xs) ≡ drop (j + i) xs
drop-drop i zero xs = rw add.zero
drop-drop i (suc j) [] = drop-nil i ∙ sym (drop-nil (suc j + i))
drop-drop i (suc j) (x ∷ xs) = rw add.suc (drop-drop i j xs)

read-ok :
    (i : ℕ) (b : List ℕ)
    → i * 8 + 8 ≤ length b
    → read_at (some b) (i * 8) sizeof_holder ≡ ok (take 8 (drop (i * 8) b))
read-ok i b h = ground arith

leb_last : (i size : ℕ) → i + 1 ≡ size → (i == size - 1) ≡ true
leb_last i size e = ground arith

leb_inner : (i size : ℕ) → i + 1 < size → (i == size - 1) ≡ false
leb_inner i size e = ground arith

next-drop : (i : ℕ) (b : List ℕ) → drop ((i + 1) * 8) b ≡ drop 8 (drop (i * 8) b)
next-drop i b = let e : (i + 1) * 8 ≡ i * 8 + 8 = omega arith in rw e (sym (drop-drop 8 (i * 8) b))

-- One round: the entry at `i`, a comma unless it is the last, and the rounds left.
save_values-step :
    (n i : ℕ) (c : Container) (b : List ℕ) (rest : List Piece)
    → c.ptr ≡ some b
    → c.entry_size ≡ 8
    → i * 8 + 8 ≤ length b
    → save_values n c (i + 1) ≡ ok rest
    → save_values (suc n) c i
      ≡ ok (
          value (holder_value (take 8 (drop (i * 8) b)))
          ∷ ((if i == c.size - 1 then [] else comma ∷ []) ++ rest))
unfolding save_values
save_values-step n i c b rest p k h ih = simp (p, k, read-ok i b h, ih)

-- The loop from index `i` on prints the entries from there on.
save_values-separated :
    (n i : ℕ) (c : Container) (b : List ℕ)
    → c.ptr ≡ some b
    → c.entry_size ≡ 8
    → i + n ≡ c.size
    → c.size * 8 ≤ length b
    → save_values n c i ≡ ok (separated (map holder_value (chunks n 8 (drop (i * 8) b))))
unfolding separated chunks
save_values-separated zero i c b p k e h = unfold save_values in refl
save_values-separated (suc zero) i c b p k e h =
    save_values-step zero i c b [] p k (omega arith) (unfold save_values in refl)
    ∙ rw (leb_last i c.size (omega arith))
save_values-separated (suc (suc n)) i c b p k e h =
    save_values-step (suc n) i c b _ p k (omega arith) (
      subst
        (λ t.
          save_values (suc n) c (i + 1) ≡ ok (separated (map holder_value (chunks (suc n) 8 t))))
        (next-drop i b) (save_values-separated (suc n) (i + 1) c b p k (omega arith) h))
    ∙ rw (leb_inner i c.size (omega arith))

-- One measured event: what the clock showed when it began, when it ended and when it was recorded.
pub record Event : Type 0 where
  pub start : Timespec
  pub end : Timespec
  pub now : Timespec

-- The latency in nanoseconds, as recorded.
abbrev pub latency : Event → ℕ
latency e = timespec_to_ns (time_delta e.end e.start)

-- The server measures into a container of eight-byte entries.
pub record IsMeasuring (this : ServerBench) : Type 0 where
  pub on : this.do_measure ≡ true
  pub valid : IsValid this.event_latency
  pub width : this.event_latency.entry_size ≡ 8

map-append_one :
    (xs : List (List ℕ)) (x : List ℕ)
    → map holder_value (xs ++ (x ∷ [])) ≡ map holder_value xs ++ (holder_value x ∷ [])
map-append_one [] x = refl
map-append_one (y ∷ xs) x = ap (λ t. holder_value y ∷ t) (map-append_one xs x)

latency-lt : (e : Event) → latency e < 2 ^ 64
unfolding timespec_to_ns
latency-lt e = omega arith

-- An event is recorded behind the others while the container has room, and measuring goes on.
pub sb_record_event-append :
    (this : ServerBench) (e : Event)
    → IsMeasuring this
    → this.event_latency.size ≢ this.event_latency.capacity
    → (this' : ServerBench) × (sb_record_event e.now this e.start e.end ≡ ok this')
      × IsMeasuring this'
      × (latencies this'.event_latency ≡ latencies this.event_latency ++ (latency e ∷ []))
      × (this'.event_latency.capacity ≡ this.event_latency.capacity)
      × (this'.event_latency.size ≡ suc this.event_latency.size)
unfolding sb_record_event latencies
sb_record_event-append this e m room =
    let holder = create_value_holder (latency e) in
    let (c, stored, valid, appended, cap, width, size) =
      pcontainer_store-append this.event_latency holder m.valid
        (length-create_value_holder (latency e) ∙ sym m.width) room in
    (
      record this { event_latency = c },
      rw (m.on, stored),
      record { on = m.on; valid = valid; width = width ∙ m.width },
      rw (appended, map-append_one, holder_value-create_value_holder (latency e) (latency-lt e)),
      cap,
      size,
    )

-- The event that no longer fits is dropped, and measuring stops at the time of it.
pub sb_record_event-full :
    (this : ServerBench) (e : Event)
    → IsMeasuring this
    → this.event_latency.size ≡ this.event_latency.capacity
    → sb_record_event e.now this e.start e.end ≡ ok (sb_stop e.now this)
unfolding sb_record_event
sb_record_event-full this e m full = ground (
  arith,
  pcontainer_store-refused this.event_latency (create_value_holder (latency e)) (inr full),
  m.on,
)

-- A run of events, in order.
unfoldable pub record_events : ServerBench → List Event → Run ServerBench
record_events this [] = ok this
record_events this (e ∷ es) =
    sb_record_event e.now this e.start e.end >>= λ this'. record_events this' es

-- The array that is saved.
abbrev pub saved_values : ServerBench → Run (List Piece)
saved_values this = save_values this.event_latency.size this.event_latency 0

saved-latencies :
    (c : Container)
    → IsValid c
    → c.entry_size ≡ 8
    → save_values c.size c 0 ≡ ok (separated (latencies c))
unfolding latencies entries
saved-latencies c v k =
    save_values-separated c.size 0 c v.block v.allocated k (omega arith)
      (omega (arith, v.room, rw k at v.room))
    ∙ rw (k, v.allocated)

stopped_stays :
    (this : ServerBench) (es : List Event)
    → this.do_measure ≡ false
    → record_events this es ≡ ok this
unfolding record_events sb_record_event
stopped_stays this [] off = refl
stopped_stays this (e ∷ es) off = ground (arith, stopped_stays this es off)

length-chunks : (n k : ℕ) (b : List ℕ) → length (chunks n k b) ≡ n
unfolding chunks
length-chunks zero k b = refl
length-chunks (suc n) k b = ap suc (length-chunks n k (drop k b))

length-latencies : (c : Container) → length (latencies c) ≡ c.size
unfolding latencies entries
length-latencies c =
    length-map (chunks c.size c.entry_size (bytes_of c.ptr)) holder_value
    ∙ length-chunks c.size c.entry_size (bytes_of c.ptr)

take-append_exact : (n : ℕ) (xs ys : List ℕ) → length xs ≡ n → take n (xs ++ ys) ≡ xs
take-append_exact n [] [] h = rw (← h)
take-append_exact zero [] (y ∷ ys) h = refl
take-append_exact (suc n) [] (y ∷ ys) h = absurd (omega arith)
take-append_exact zero (x ∷ xs) ys h = absurd (omega arith)
take-append_exact (suc n) (x ∷ xs) ys h = ap (λ t. x ∷ t) (take-append_exact n xs ys (omega arith))

take_all : (n : ℕ) (xs : List ℕ) → length xs ≤ n → take n xs ≡ xs
take_all zero [] h = refl
take_all (suc n) [] h = refl
take_all zero (x ∷ xs) h = absurd (omega arith)
take_all (suc n) (x ∷ xs) h = ap (λ t. x ∷ t) (take_all n xs (omega arith))

-- After events recorded while measuring, the loop of `sb_save_bench` prints the latencies that were
-- there and those of the events, in order, as many as the container has room for, with a comma
-- between two and none at the end.
pub saved_values-record_events :
    (es : List Event) (this : ServerBench)
    → IsMeasuring this
    → (this' : ServerBench) × (record_events this es ≡ ok this')
      × (saved_values this'
          ≡ ok (
              separated (
                take this.event_latency.capacity (latencies this.event_latency ++ map latency es))))
unfolding record_events sb_stop
saved_values-record_events [] this m = (
  this,
  refl,
  rw
      (
        append-nil,
        take_all this.event_latency.capacity (latencies this.event_latency)
            (omega (arith, length-latencies this.event_latency, m.valid.within)),
      )
      (saved-latencies this.event_latency m.valid m.width),
)
saved_values-record_events (e ∷ es) this m = elim (ℕ_discrete c.size c.capacity) [
  | yes full ↦ (
    sb_stop e.now this,
    rw (sb_record_event-full this e m full) (stopped_stays (sb_stop e.now this) es refl),
    rw
        (take-append_exact c.capacity (latencies c) (map latency (e ∷ es))
          (length-latencies c ∙ full))
        (saved-latencies c m.valid m.width),
  )
  | no room ↦
      let (next, recorded, m', appended, cap, _) = sb_record_event-append this e m room in
      let (last, ran, saved) = saved_values-record_events es next m' in
      (
        last,
        rw recorded ran,
        saved ∙ rw (appended, cap, append_assoc (latencies c) (latency e ∷ []) (map latency es)),
      )
]
  where
    open this use {event_latency as c}
