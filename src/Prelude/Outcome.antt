-- ===== src/Prelude/Outcome.antt =====
-- Total correctness of a step that may fault: it returns, and its result satisfies a predicate.
use mathlib.Core.Path.{◌≡◌, refl}
use mathlib.Core.Bool.{Bool, true, false}
use mathlib.Core.Option.{Option, none, some}
use ezwebsocket.Prelude.Tests.{if◌then◌else◌, ◌>>=◌}

pub record Ensures {ℓ} {A : Type ℓ} (P : A → Type 0) (m : Option A) : Type ℓ where
  pub result : A
  pub returns : m ≡ some result
  pub holds : P result

-- The same as a predicate that computes, for the tactics.
abbrev pub Holds {ℓ} : {A : Type ℓ} → (A → Type 0) → Option A → Type 0
Holds P none = ⊥
Holds P (some a) = P a

module _ {ℓ} {A : Type ℓ} {P : A → Type 0} where
  pub ensure : (m : Option A) → Holds P m → Ensures P m
  ensure none h = absurd h
  ensure (some a) h = record { result = a; returns = refl; holds = h }

  pub Ensures-Holds : {m : Option A} → Ensures P m → Holds P m
  Ensures-Holds e = rw e.returns e.holds

  pub Ensures-some : (a : A) → P a → Ensures P (some a)
  Ensures-some a h = record { result = a; returns = refl; holds = h }

  pub Ensures-if :
      (b : Bool) {x y : Option A}
      → (b ≡ true → Ensures P x)
      → (b ≡ false → Ensures P y)
      → Ensures P (if b then x else y)
  Ensures-if true h k = h refl
  Ensures-if false h k = k refl

  pub Ensures-weaken :
      {Q : A → Type 0} {m : Option A} → Ensures P m → ((a : A) → P a → Q a) → Ensures Q m
  Ensures-weaken e k = record { result = e.result; returns = e.returns; holds = k e.result e.holds }

  pub Ensures-bind {κ} :
      {B : Type κ} {Q : B → Type 0} {m : Option A} {f : A → Option B}
      → Ensures P m
      → ((a : A) → P a → Ensures Q (f a))
      → Ensures Q (m >>= f)
  Ensures-bind {Q} {m} {f} e k = rw e.returns (k e.result e.holds)

Holds-both {ℓ} :
    {A : Type ℓ} (P Q : A → Type 0) (m : Option A)
    → Holds P m
    → Holds Q m
    → Holds (λ a. P a × Q a) m
Holds-both P Q none h k = h
Holds-both P Q (some a) h k = (h, k)

pub Ensures-both {ℓ} :
    {A : Type ℓ} {P Q : A → Type 0} {m : Option A}
    → Ensures P m
    → Ensures Q m
    → Ensures (λ a. P a × Q a) m
Ensures-both {P} {Q} {m} e f = ensure m (Holds-both P Q m (Ensures-Holds e) (Ensures-Holds f))
