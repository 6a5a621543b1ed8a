-- ===== src/Prelude/Simulation.antt =====
-- Two runs side by side: the first carries more state than the second, and the code in both is the same
-- but for what it does to that state.
use mathlib.Core.Path.{◌≡◌, refl, ap, subst}
use mathlib.Core.Bool.{Bool, true, false}
use linux_modern_io_multiple.Prelude.Tests.{if◌then◌else◌}
use linux_modern_io_multiple.Prelude.Run.{Run, ok, exited, fault, out_of_fuel, ◌>>=◌, Yields}

-- A run with its result seen through `h`.
abbrev pub run_map : {A B : Type 0} → (A → B) → Run A → Run B
run_map h (ok a) = ok (h a)
run_map h exited = exited
run_map h fault = fault
run_map h out_of_fuel = out_of_fuel

-- Through `h`, the first run is the second, and `I` holds of what it returns.
pub record Simulates {A B : Type 0} (h : A → B) (I : A → Type 0) (r : Run A) (s : Run B)
    : Type 0 where
  pub seen : run_map h r ≡ s
  pub keeps : Yields I r

module _ {A B : Type 0} {h : A → B} {I : A → Type 0} where
  pub Simulates-ok : (a : A) (b : B) → h a ≡ b → I a → Simulates h I (ok a) (ok b)
  Simulates-ok a b e i = record { seen = ap ok e; keeps = i }

  pub Simulates-exited : Simulates h I exited exited
  Simulates-exited = record { seen = refl; keeps = tt }

  pub Simulates-fault : Simulates h I fault fault
  Simulates-fault = record { seen = refl; keeps = tt }

  pub Simulates-out_of_fuel : Simulates h I out_of_fuel out_of_fuel
  Simulates-out_of_fuel = record { seen = refl; keeps = tt }

  -- More state is put around what a run returns.
  pub Simulates-lift :
      (r : Run B) (f : B → A)
      → ((b : B) → h (f b) ≡ b)
      → ((b : B) → I (f b))
      → Simulates h I (r >>= λ b. ok (f b)) r
  Simulates-lift (ok b) f e i = Simulates-ok (f b) b (e b) (i b)
  Simulates-lift exited f e i = Simulates-exited
  Simulates-lift fault f e i = Simulates-fault
  Simulates-lift out_of_fuel f e i = Simulates-out_of_fuel

  -- The same first part.
  pub Simulates-bind :
      {R : Type 0} (r : Run R) (f : R → Run A) (g : R → Run B)
      → ((x : R) → Simulates h I (f x) (g x))
      → Simulates h I (r >>= f) (r >>= g)
  Simulates-bind (ok x) f g e = e x
  Simulates-bind exited f g e = Simulates-exited
  Simulates-bind fault f g e = Simulates-fault
  Simulates-bind out_of_fuel f g e = Simulates-out_of_fuel

  pub Simulates-if :
      (b : Bool) (r r' : Run A) (s s' : Run B)
      → Simulates h I r s
      → Simulates h I r' s'
      → Simulates h I (if b then r else r') (if b then s else s')
  Simulates-if true r r' s s' e f = e
  Simulates-if false r r' s s' e f = f

-- A first part that is simulated itself.
pub Simulates-chain :
    {A B C D : Type 0} {h : A → B} {I : A → Type 0} {k : C → D} {J : C → Type 0} (r : Run A)
    (s : Run B) (f : A → Run C) (g : B → Run D)
    → Simulates h I r s
    → ((a : A) → I a → Simulates k J (f a) (g (h a)))
    → Simulates k J (r >>= f) (s >>= g)
Simulates-chain {k = k} {J = J} (ok a) s f g sim e =
    subst (λ t. Simulates k J (f a) (t >>= g)) sim.seen (e a sim.keeps)
Simulates-chain {C = C} {k = k} {J = J} exited s f g sim e =
    subst (λ t. Simulates {A = C} k J exited (t >>= g)) sim.seen Simulates-exited
Simulates-chain {C = C} {k = k} {J = J} fault s f g sim e =
    subst (λ t. Simulates {A = C} k J fault (t >>= g)) sim.seen Simulates-fault
Simulates-chain {C = C} {k = k} {J = J} out_of_fuel s f g sim e =
    subst (λ t. Simulates {A = C} k J out_of_fuel (t >>= g)) sim.seen Simulates-out_of_fuel
