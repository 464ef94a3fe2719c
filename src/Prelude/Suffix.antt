-- ===== src/Prelude/Suffix.antt =====
-- The last entries of a list: what a bounded history keeps.
use Prim.Native.Nat.{ℕ, zero, suc, ◌+◌, ◌-◌, ◌≤◌}
use mathlib.Core.Path.{◌≡◌, refl, ap, sym, ◌∙◌}
use mathlib.Core.List.{List, [], ◌∷◌, ◌++◌}
use native.Mathlib.Omega.{arith}
use livekit_agent_sdk_go.Prelude.Lists.{length, drop, length-append, length-drop}

module _ {ℓ} {A : Type ℓ} where
  -- As many of the last entries as are asked for.
  abbrev pub last_of : ℕ → List A → List A
  last_of n xs = drop (length xs - n) xs

  pub drop_nil : (k : ℕ) → drop {A = A} k [] ≡ []
  drop_nil zero = refl
  drop_nil (suc k) = refl

  pub drop-drop : (j k : ℕ) (xs : List A) → drop j (drop k xs) ≡ drop (k + j) xs
  drop-drop j zero xs = ap (λ n. drop n xs) {y = 0 + j} (omega arith)
  drop-drop j (suc k) [] = drop_nil j ∙ sym (drop_nil (suc k + j))
  drop-drop j (suc k) (x ∷ xs) =
      drop-drop j k xs ∙ ap (λ n. drop n (x ∷ xs)) {x = suc (k + j)} {y = suc k + j} (omega arith)

  pub drop-snoc :
      (k : ℕ) (xs : List A) (x : A) → k ≤ length xs → drop k (xs ++ x ∷ []) ≡ drop k xs ++ x ∷ []
  drop-snoc zero xs x h = refl
  drop-snoc (suc k) [] x h = absurd (omega arith)
  drop-snoc (suc k) (y ∷ xs) x h = drop-snoc k xs x (omega arith)

  -- Cutting a history before the next entry comes does not change what is kept after it.
  pub last_of-snoc :
      (n : ℕ) (xs : List A) (x : A) → last_of n (last_of n xs ++ x ∷ []) ≡ last_of n (xs ++ x ∷ [])
  last_of-snoc n xs x =
      let k = length xs - n in
      let cut = length (drop k xs ++ x ∷ []) - n in
      ap (λ ys. drop cut ys) (sym (drop-snoc k xs x (omega arith)))
      ∙ drop-drop cut k (xs ++ x ∷ [])
      ∙ ap (λ j. drop j (xs ++ x ∷ [])) {x = k + cut}
          (omega (
            arith,
            length-append (drop k xs) (x ∷ []),
            length-drop k xs,
            length-append xs (x ∷ []),
          ))

  pub length-last_of : (n : ℕ) (xs : List A) → length (last_of n xs) ≤ n
  length-last_of n xs = omega (arith, length-drop (length xs - n) xs)
