-- ===== src/ShutdownHooks/Sorting.antt =====
-- The order that sortHooks (pkg/agent/shutdown_hooks.go) puts the hooks of a phase in. Hooks with the
-- same priority may change places.
use mathlib.Core.List.{Perm}
use mathlib.Core.List.Perm
use livekit_agent_sdk_go.Prelude.{
  ℕ, suc, zero, ◌≤◌, ◌≡◌, refl, inl, inr, Bool-cases, List, [], ◌∷◌, ◌++◌, arith, length, All,
}
use livekit_agent_sdk_go.Prelude.Int.{ℤ, ltb_ℤ, ◌≤ℤ◌}
use livekit_agent_sdk_go.ShutdownHooks.{ShutdownHook, settle, sort_positions, sort_hooks}

-- Every hook of the list has at least the priority p.
abbrev pub AtLeast : ℤ → List ShutdownHook → Type 0
AtLeast p hs = All (λ h. p ≤ℤ h.priority) hs

abbrev pub Sorted : List ShutdownHook → Type 0
Sorted [] = Unit
Sorted (h ∷ hs) = AtLeast h.priority hs × Sorted hs

AtLeast-trans : (p q : ℤ) (hs : List ShutdownHook) → p ≤ℤ q → AtLeast q hs → AtLeast p hs
AtLeast-trans p q [] h a = tt
AtLeast-trans p q (x ∷ hs) h a = (omega (arith, a.0), AtLeast-trans p q hs h a.1)

settle-length :
    (held : ShutdownHook) (hs : List ShutdownHook) → length (settle held hs).1 ≡ length hs
unfolding settle
settle-length held [] = refl
settle-length held (h ∷ hs) = ground (arith, settle-length h hs, settle-length held hs)

settle-perm :
    (held : ShutdownHook) (hs : List ShutdownHook)
    → Perm ((settle held hs).0 ∷ (settle held hs).1) (held ∷ hs)
unfolding settle
settle-perm held [] = Perm.refl _
settle-perm held (h ∷ hs) = elim (Bool-cases (ltb_ℤ h.priority held.priority)) [
  | inl e ↦ rw e (Perm.trans (Perm.swap held _ _) (Perm.cons held (settle-perm h hs)))
  | inr e ↦ rw e (
      Perm.trans (Perm.swap h _ _)
        (Perm.trans (Perm.cons h (settle-perm held hs)) (Perm.swap held h hs)))
]

-- What ends in hooks[i] is no larger than what was there, and than all that is behind it.
settle-lower :
    (held : ShutdownHook) (hs : List ShutdownHook)
    → ((settle held hs).0.priority ≤ℤ held.priority)
      × AtLeast (settle held hs).0.priority (settle held hs).1
unfolding settle
settle-lower held [] = (omega arith, tt)
settle-lower held (h ∷ hs) = elim (Bool-cases (ltb_ℤ h.priority held.priority)) [
  | inl e ↦ rw e (let (low, rest) = settle-lower h hs in (ground arith, (ground arith, rest)))
  | inr e ↦ rw e (let (low, rest) = settle-lower held hs in (low, (ground arith, rest)))
]

sort_positions-perm : (n : ℕ) (hs : List ShutdownHook) → Perm (sort_positions n hs) hs
unfolding sort_positions
sort_positions-perm zero hs = Perm.refl hs
sort_positions-perm (suc n) [] = Perm.refl []
sort_positions-perm (suc n) (h ∷ hs) =
    Perm.trans (Perm.cons _ (sort_positions-perm n (settle h hs).1)) (settle-perm h hs)

settle-AtLeast :
    (p : ℤ) (held : ShutdownHook) (hs : List ShutdownHook)
    → AtLeast p (held ∷ hs)
    → AtLeast p ((settle held hs).0 ∷ (settle held hs).1)
unfolding settle
settle-AtLeast p held [] a = a
settle-AtLeast p held (h ∷ hs) a = elim (Bool-cases (ltb_ℤ h.priority held.priority)) [
  | inl e ↦ rw e (let (low, rest) = settle-AtLeast p h hs a.1 in (low, (a.0, rest)))
  | inr e ↦ rw e (let (low, rest) = settle-AtLeast p held hs (a.0, a.1.1) in (low, (a.1.0, rest)))
]

sort_positions-AtLeast :
    (p : ℤ) (n : ℕ) (hs : List ShutdownHook) → AtLeast p hs → AtLeast p (sort_positions n hs)
unfolding sort_positions
sort_positions-AtLeast p zero hs a = a
sort_positions-AtLeast p (suc n) [] a = tt
sort_positions-AtLeast p (suc n) (h ∷ hs) a =
    let (low, rest) = settle-AtLeast p h hs a in
    (low, sort_positions-AtLeast p n (settle h hs).1 rest)

sort_positions-Sorted :
    (n : ℕ) (hs : List ShutdownHook) → length hs ≤ n → Sorted (sort_positions n hs)
unfolding sort_positions
sort_positions-Sorted zero [] h = tt
sort_positions-Sorted zero (x ∷ hs) h = absurd (omega arith)
sort_positions-Sorted (suc n) [] h = tt
sort_positions-Sorted (suc n) (x ∷ hs) h = (
  sort_positions-AtLeast (settle x hs).0.priority n (settle x hs).1 (settle-lower x hs).1,
  sort_positions-Sorted n (settle x hs).1 (omega (arith, settle-length x hs)),
)

pub sort_hooks-Sorted : (hs : List ShutdownHook) → Sorted (sort_hooks hs)
unfolding sort_hooks
sort_hooks-Sorted hs = sort_positions-Sorted (length hs) hs (omega arith)

pub sort_hooks-perm : (hs : List ShutdownHook) → Perm (sort_hooks hs) hs
unfolding sort_hooks
sort_hooks-perm hs = sort_positions-perm (length hs) hs

-- A hook that is put behind the others is one of the hooks.
pub append-perm : (hs : List ShutdownHook) (h : ShutdownHook) → Perm (hs ++ h ∷ []) (h ∷ hs)
append-perm [] h = Perm.refl _
append-perm (x ∷ hs) h = Perm.trans (Perm.cons x (append-perm hs h)) (Perm.swap h x hs)
