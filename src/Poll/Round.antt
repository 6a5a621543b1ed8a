-- ===== src/Poll/Round.antt =====
-- The loop of `service_events` over the whole vector.
use linux_modern_io_multiple.Prelude.{
  ℕ, zero, suc, ◌+◌, ◌^◌, ◌<◌, ◌≤◌, ◌≡◌, ◌≢◌, refl, subst, arith, Bool, true, false, ◌&&◌, not,
  some, none, get_elem?, ltb, ◌==◌, if◌then◌else◌, Option,
}
use linux_modern_io_multiple.Prelude.Int.{ℤ}
use linux_modern_io_multiple.Prelude.Run.{Run, ◌>>=◌, from_cell, Yields, Yields-chain}
use linux_modern_io_multiple.Pollfd.Invariant.{IsValid}
use linux_modern_io_multiple.Pollfd.Contents.{contents}
use linux_modern_io_multiple.Poll.{Server, Service, service_entry, service_from, after, before}
use linux_modern_io_multiple.Poll.Serviced.{Outcome}
use linux_modern_io_multiple.Poll.Readiness.{service_entry-Outcome, Outcome-ready}
use linux_modern_io_multiple.Poll.Ready.{ready, ready-get}
use linux_modern_io_multiple.Poll.Serving.{
  Open, Serving, contents_lt, active_weight, finished, passed, in_use, removed, kept,
}

-- The condition of a test is known in its branches.
Yields-test {κ ℓ} :
    {A : Type ℓ} (Q : A → Type κ) (b : Bool) (r s : Run A)
    → (b ≡ true → Yields Q r)
    → (b ≡ false → Yields Q s)
    → Yields Q (if b then r else s)
Yields-test Q true r s y z = y refl
Yields-test Q false r s y z = z refl

Yields-cell {κ ℓ ι} :
    {A : Type ℓ} {B : Type ι} (Q : B → Type κ) (o : Option A) (f : A → Run B)
    → ((a : A) → o ≡ some a → Yields Q (f a))
    → Yields Q (from_cell o >>= f)
Yields-cell Q none f g = tt
Yields-cell Q (some a) f g = g a refl

module _ (size no_events : ℕ) (small : size < 2 ^ 32) where
  -- From any point of the loop on.
  service_from-serviced :
      (n : ℕ) (ls : ℤ) (answers : ℕ → Service) (fuel i k : ℕ) (s : Server)
      → Serving size no_events i k s.vec
      → Yields
          (λ ((k', s') : ℕ × Server). (k' ≡ no_events) × (ready (contents s'.vec) ≡ 0))
          (service_from n ls size no_events answers fuel i k s)
  unfolding service_from
  service_from-serviced n ls answers zero i k s w = tt
  service_from-serviced n ls answers (suc fuel) i k s w =
      Yields-test _ (not (ltb i size && ltb k no_events)) _ _
        (λ stop. finished size no_events small i k s.vec w (ground (arith, stop)))
        (λ go.
          let h : i < size = ground (arith, go) in
          Yields-cell _ (get_elem? (s.vec).slots i) _ (λ ev at.
            Yields-test _ (ev.revents == 0) _ _
              (λ idle.
                service_from-serviced n ls answers fuel (after i) k s
                  (passed size no_events small i k s.vec ev w h at (ground (arith, idle))))
              (λ busy.
                let active : ev.revents ≢ 0 = ground (arith, busy) in
                let (q, inside, there) = in_use size no_events small i k s.vec ev w h at active in
                let heavy = active_weight (ev, q) active in
                let some_ready = ready-get (contents s.vec) i (ev, q) there heavy in
                Yields-chain (Outcome s.vec i ev q) _ (service_entry n ls s i ev (answers k)) _
                  (service_entry-Outcome n ls s i ev q (answers k) w.valid inside
                    (omega (arith, w.room, some_ready)) there (w.opened i (ev, q) there heavy))
                  (λ (gone, s') out.
                    let fewer = Outcome-ready s i ev q (gone, s') there active out in
                    Yields-test _ gone _ _
                      (λ yes_gone.
                        service_from-serviced n ls answers fuel (after (before i)) (k + 1) s' (
                          removed size no_events small i k ev q s.vec s'.vec w h fewer
                            (subst (λ g. Outcome s.vec i ev q (g, s')) yes_gone out)))
                      (λ not_gone. service_from-serviced n ls answers fuel (after i) (k + 1) s' (
                        kept size no_events small i k ev q s.vec s'.vec w h fewer
                          (subst (λ g. Outcome s.vec i ev q (g, s')) not_gone out)))))))

-- A round of the loop over the vector, if it returns, has handled exactly as many events as `ppoll`
-- counted, which is what the assertion behind it tests, and has left no entry ready. That count is
-- the number of the ready entries, all of which have a descriptor; the vector is valid, and has room
-- for as many clients.
pub service_from-round :
    (n : ℕ) (ls : ℤ) (no_events : ℕ) (answers : ℕ → Service) (fuel : ℕ) (s : Server)
    → IsValid s.vec
    → ready (contents s.vec) ≡ no_events
    → (s.vec).size + no_events ≤ (s.vec).capacity
    → Open (contents s.vec)
    → Yields
        (λ ((no_serviced, s') : ℕ × Server).
          (no_serviced ≡ no_events) × (ready (contents s'.vec) ≡ 0))
        (service_from n ls (s.vec).size no_events answers fuel 0 0 s)
service_from-round n ls no_events answers fuel s iv count room opened =
    service_from-serviced (s.vec).size no_events (omega (arith, iv)) n ls answers fuel 0 0 s
      (record {
        valid = iv;
        count = omega (arith, count);
        behind = λ j y below here. absurd (omega (arith, below));
        beyond = λ j y far here. absurd (omega (arith, far, contents_lt s.vec j y here));
        spare = λ j e at below here. absurd (omega (arith, at, below));
        opened = opened;
        room = omega (arith, room, count);
        within = omega arith;
      })
