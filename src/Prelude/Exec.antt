-- ===== src/Prelude/Exec.antt =====
-- Code that may panic, or that a model runs on fuel. A program's total correctness is `Returns`.
use mathlib.Core.Path.{◌≡◌, refl, sym}
use mathlib.Core.Bool.{Bool, true, false}
use mathlib.Core.Option.{Option, none, some}
use livekit_agent_sdk_go.Prelude.Tests.{if◌then◌else◌}

pub data Exec {ℓ} (A : Type ℓ) : Type ℓ where
  ok : A → Exec A
  panic : Exec A
  out_of_fuel : Exec A

infixl 5 ◌>>=◌
abbrev pub ◌>>=◌ {ℓ κ} : {A : Type ℓ} {B : Type κ} → Exec A → (A → Exec B) → Exec B
ok a >>= f = f a
panic >>= f = panic
out_of_fuel >>= f = out_of_fuel

abbrev pub or_panic {ℓ} : {A : Type ℓ} → Option A → Exec A
or_panic none = panic
or_panic (some a) = ok a

-- The run ends, without a panic, in a value that has the property.
pub data Returns {ℓ κ} {A : Type ℓ} (P : A → Type κ) : Exec A → Type (ℓ ⊔ κ) where
  returns : {a : A} → P a → Returns P (ok a)

module _ {ℓ κ ι μ} {A : Type ℓ} {B : Type κ} {P : A → Type ι} {Q : B → Type μ} where
  pub Returns-bind :
      {m : Exec A} {f : A → Exec B}
      → Returns P m
      → ((a : A) → P a → Returns Q (f a))
      → Returns Q (m >>= f)
  Returns-bind (returns {a = a} h) k = k a h

module _ {ℓ κ ι} {A : Type ℓ} {P : A → Type κ} {Q : A → Type ι} where
  pub Returns-map : {m : Exec A} → Returns P m → ((a : A) → P a → Q a) → Returns Q m
  Returns-map (returns {a = a} h) k = returns (k a h)

module _ {ℓ κ} {A : Type ℓ} {P : A → Type κ} where
  -- What a run returns, with the equation.
  pub Returns-value : {m : Exec A} → Returns P m → (a : A) × (m ≡ ok a) × P a
  Returns-value (returns {a = a} h) = (a, refl, h)

  pub Returns-if :
      (b : Bool) {m n : Exec A}
      → (b ≡ true → Returns P m)
      → (b ≡ false → Returns P n)
      → Returns P (if b then m else n)
  Returns-if true h k = h refl
  Returns-if false h k = k refl

-- If the run ends in a value, then in one that has the property.
pub data Ends {ℓ κ} {A : Type ℓ} (P : A → Type κ) : Exec A → Type (ℓ ⊔ κ) where
  ends : {a : A} → P a → Ends P (ok a)
  panics : Ends P panic
  starves : Ends P out_of_fuel

pub Returns→Ends {ℓ κ} : {A : Type ℓ} {P : A → Type κ} {m : Exec A} → Returns P m → Ends P m
Returns→Ends (returns h) = ends h

module _ {ℓ κ ι μ} {A : Type ℓ} {B : Type κ} {P : A → Type ι} {Q : B → Type μ} where
  pub Ends-bind :
      {m : Exec A} {f : A → Exec B} → Ends P m → ((a : A) → P a → Ends Q (f a)) → Ends Q (m >>= f)
  Ends-bind (ends {a = a} h) k = k a h
  Ends-bind panics k = panics
  Ends-bind starves k = starves

module _ {ℓ κ} {A : Type ℓ} {P : A → Type κ} where
  Ends-ok : {a : A} → Ends P (ok a) → P a
  Ends-ok (ends h) = h

  pub Ends-value : {m : Exec A} {a : A} → Ends P m → m ≡ ok a → P a
  Ends-value h e = Ends-ok (rw (sym e) h)

module _ {ℓ κ ι} {A : Type ℓ} {P : A → Type κ} {Q : A → Type ι} where
  pub Ends-map : {m : Exec A} → Ends P m → ((a : A) → P a → Q a) → Ends Q m
  Ends-map (ends {a = a} h) k = ends (k a h)
  Ends-map panics k = panics
  Ends-map starves k = starves

module _ {ℓ κ ι} {A : Type ℓ} {P : A → Type κ} {Q : A → Type ι} where
  pub Returns-Ends : {m : Exec A} → Returns Q m → Ends P m → Returns P m
  Returns-Ends (returns h) (ends k) = returns k

pub ok-Returns {ℓ} : {A : Type ℓ} (a : A) → Returns (λ _. Unit {0}) (ok a)
ok-Returns a = returns tt
