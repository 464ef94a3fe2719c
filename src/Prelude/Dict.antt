-- ===== src/Prelude/Dict.antt =====
-- Go's `map[string]V`. An entry that is written again keeps its place; Go leaves the order of an
-- iteration open, so no statement rests on the order of the entries.
use Prim.Native.Nat.{ℕ, ◌+◌}
use Prim.Native.String.{String}
use mathlib.Core.Path.{◌≡◌, refl}
use mathlib.Core.Bool.{Bool, not}
use mathlib.Core.Option.{Option, none, some}
use mathlib.Core.List.{List, [], ◌∷◌}
use native.Mathlib.Omega.{arith}
use text.Mathlib.Text.{◌==◌ as str_eq}
use text.Mathlib.TextEquality.{eq_iff}
use livekit_agent_sdk_go.Prelude.Tests.{if◌then◌else◌}
use livekit_agent_sdk_go.Prelude.Lists.{length}

abbrev pub Dict {ℓ} : Type ℓ → Type ℓ
Dict V = List (String × V)

module _ {ℓ} {V : Type ℓ} where
  -- v, ok := m[key]
  unfoldable pub lookup : String → Dict V → Option V
  lookup key [] = none
  lookup key ((at, held) ∷ rest) = if str_eq at key then some held else lookup key rest

  -- delete(m, key)
  unfoldable pub delete : String → Dict V → Dict V
  delete key [] = []
  delete key ((at, held) ∷ rest) =
      if str_eq at key then delete key rest else (at, held) ∷ delete key rest

  -- m[key] = new
  unfoldable pub insert : String → V → Dict V → Dict V
  insert key new [] = (key, new) ∷ []
  insert key new ((at, held) ∷ rest) =
      if str_eq at key then (at, new) ∷ rest else (at, held) ∷ insert key new rest

  -- A loop over the map that deletes the entries which fail the test.
  unfoldable pub retain : (V → Bool) → Dict V → Dict V
  retain keep [] = []
  retain keep ((at, held) ∷ rest) =
      if keep held then (at, held) ∷ retain keep rest else retain keep rest

  -- How many entries pass the test.
  unfoldable pub count_if : (V → Bool) → Dict V → ℕ
  count_if test [] = 0
  count_if test ((j, w) ∷ m) = let rest = count_if test m in if test w then rest + 1 else rest

  pub lookup-delete :
      (k j : String) (m : Dict V)
      → lookup j (delete k m) ≡ (if str_eq k j then none else lookup j m)
  unfolding lookup delete
  lookup-delete k j [] = ground arith
  lookup-delete k j ((i, w) ∷ m) =
      ground (arith, eq_iff k j, eq_iff i k, eq_iff i j, lookup-delete k j m)

  pub lookup-insert :
      (key id : String) (new : V) (m : Dict V)
      → lookup id (insert key new m) ≡ (if str_eq key id then some new else lookup id m)
  unfolding lookup insert
  lookup-insert key id new [] = refl
  lookup-insert key id new ((at, held) ∷ rest) =
      ground (arith, eq_iff at key, eq_iff at id, eq_iff key id, lookup-insert key id new rest)

  -- What a loop deletes and what it keeps add up.
  pub length-retain :
      (test : V → Bool) (m : Dict V)
      → length (retain (λ v. not (test v)) m) + count_if test m ≡ length m
  unfolding retain count_if
  length-retain test [] = omega arith
  length-retain test ((j, w) ∷ m) = ground (arith, length-retain test m)

  -- No key stands twice, as in every Go map.
  abbrev pub Unique : Dict V → Type ℓ
  Unique [] = Unit
  Unique ((k, v) ∷ m) = (lookup k m ≡ none) × Unique m

  pub insert-Unique : (k : String) (v : V) (m : Dict V) → Unique m → Unique (insert k v m)
  unfolding lookup insert
  insert-Unique k v [] u = (refl, tt)
  insert-Unique k v ((i, w) ∷ m) u =
      ground (arith, eq_iff i k, eq_iff k i, lookup-insert k i v m, insert-Unique k v m u.1)

  pub delete-Unique : (k : String) (m : Dict V) → Unique m → Unique (delete k m)
  unfolding lookup delete
  delete-Unique k [] u = tt
  delete-Unique k ((i, w) ∷ m) u =
      ground (arith, eq_iff k i, lookup-delete k i m, delete-Unique k m u.1)

  abbrev pub kept : (V → Bool) → Option V → Option V
  kept keep none = none
  kept keep (some v) = if keep v then some v else none

  pub lookup-retain :
      (keep : V → Bool) (j : String) (m : Dict V)
      → Unique m
      → lookup j (retain keep m) ≡ kept keep (lookup j m)
  unfolding lookup retain
  lookup-retain keep j [] u = refl
  lookup-retain keep j ((i, w) ∷ m) u = ground (arith, eq_iff i j, lookup-retain keep j m u.1)

  pub retain-Unique : (keep : V → Bool) (m : Dict V) → Unique m → Unique (retain keep m)
  unfolding lookup retain
  retain-Unique keep [] u = tt
  retain-Unique keep ((i, w) ∷ m) u =
      ground (arith, lookup-retain keep i m u.1, retain-Unique keep m u.1)
