-- ===== src/ShutdownHooks/Registry.antt =====
-- What the methods of ShutdownHookManager do to the registered hooks (pkg/agent/shutdown_hooks.go).
use mathlib.Core.List.{Perm}
use mathlib.Core.List.Perm
use livekit_agent_sdk_go.Prelude.{
  ◌+◌, ◌≡◌, inl, inr, ◌⊎◌, Bool-cases, Option-cases, true, String, none, some, List, [], ◌∷◌, ◌++◌,
  arith, str_eq, eq_iff, eq_refl, if◌then◌else◌, length, ap,
}
use livekit_agent_sdk_go.Prelude.Arrays.{length-perm}
use livekit_agent_sdk_go.Prelude.Dict.{Dict, lookup, insert, lookup-insert}
use livekit_agent_sdk_go.Prelude.Int.{ℤ}
use livekit_agent_sdk_go.ShutdownHooks.{
  ShutdownHook, ShutdownHookManager, ShutdownPhase, total, sort_hooks, add_hook, remove_hook,
  without, get_hooks, get_hook_count, with_default_timeout,
}
use livekit_agent_sdk_go.ShutdownHooks.Sorting.{
  AtLeast, Sorted, sort_hooks-Sorted, sort_hooks-perm, append-perm,
}

-- A write under a key that is there changes the total by the change of that list.
total-insert :
    (phase : String) (new old : List ShutdownHook) (d : Dict (List ShutdownHook))
    → lookup phase d ≡ some old
    → total (insert phase new d) + length old ≡ total d + length new
unfolding lookup insert
total-insert phase new old [] e = absurd (ground arith)
total-insert phase new old ((at, hs) ∷ d) e = ground (arith, total-insert phase new old d)

pub add_hook_known :
    (phase : ShutdownPhase) (hook : ShutdownHook) (m : ShutdownHookManager) (hs : List ShutdownHook)
    → lookup phase m.hooks ≡ some hs
    → add_hook phase hook m ≡ (
      record m { hooks = insert phase (sort_hooks (hs ++ with_default_timeout hook ∷ [])) m.hooks },
      none,
    )
unfolding add_hook
add_hook_known phase hook m hs e = ground arith

pub lookup-add_hook :
    (phase other : ShutdownPhase) (hook : ShutdownHook) (m : ShutdownHookManager)
    (hs : List ShutdownHook)
    → lookup phase m.hooks ≡ some hs
    → lookup other (add_hook phase hook m).0.hooks ≡ (
        if str_eq phase other
        then some (sort_hooks (hs ++ with_default_timeout hook ∷ []))
        else lookup other m.hooks)
lookup-add_hook phase other hook m hs e =
    rw (add_hook_known phase hook m hs e)
      (lookup-insert phase other (sort_hooks (hs ++ with_default_timeout hook ∷ [])) m.hooks)

pub added-perm :
    (hs : List ShutdownHook) (h : ShutdownHook) → Perm (sort_hooks (hs ++ h ∷ [])) (h ∷ hs)
added-perm hs h = Perm.trans (sort_hooks-perm _) (append-perm hs h)

get_hooks-add_hook :
    (phase : ShutdownPhase) (hook : ShutdownHook) (m : ShutdownHookManager) (hs : List ShutdownHook)
    → lookup phase m.hooks ≡ some hs
    → get_hooks phase (add_hook phase hook m).0 ≡ sort_hooks (hs ++ with_default_timeout hook ∷ [])
unfolding get_hooks
get_hooks-add_hook phase hook m hs e =
    ground (arith, eq_refl phase, lookup-add_hook phase phase hook m hs e)

-- A hook that is added to a phase of the manager is one of the phase's hooks, with its timeout
-- filled in; none of those that were there is lost, and the phase is in the order of the priorities
-- whatever it was before. Every other phase is as it was, and the count grows by one.
pub add_hook_correct :
    (phase other : ShutdownPhase) (hook : ShutdownHook) (m : ShutdownHookManager)
    (hs : List ShutdownHook)
    → lookup phase m.hooks ≡ some hs
    → ((add_hook phase hook m).1 ≡ none)
      × Sorted (get_hooks phase (add_hook phase hook m).0)
      × Perm (get_hooks phase (add_hook phase hook m).0) (with_default_timeout hook ∷ hs)
      × (lookup other (add_hook phase hook m).0.hooks ≡ (
          if str_eq phase other
          then some (get_hooks phase (add_hook phase hook m).0)
          else lookup other m.hooks))
      × (get_hook_count (add_hook phase hook m).0 ≡ get_hook_count m + 1)
unfolding get_hook_count
add_hook_correct phase other hook m hs e =
    let new = sort_hooks (hs ++ with_default_timeout hook ∷ []) in
    let now = get_hooks-add_hook phase hook m hs e in
    (
      ap (λ r. r.1) (add_hook_known phase hook m hs e),
      rw now (sort_hooks-Sorted (hs ++ with_default_timeout hook ∷ [])),
      rw now (added-perm hs (with_default_timeout hook)),
      rw now (lookup-add_hook phase other hook m hs e),
      rw (add_hook_known phase hook m hs e) (
          omega (
            arith,
            total-insert phase new hs m.hooks e,
            length-perm (added-perm hs (with_default_timeout hook)),
          )),
    )

-- The loop of RemoveHook either stops at the head, or goes on behind it.
pub without-cases :
    (name : String) (h : ShutdownHook) (hs less : List ShutdownHook)
    → without name (h ∷ hs) ≡ some less
    → ((h.name ≡ name) × (less ≡ hs))
      ⊎ ((rest : List ShutdownHook) × (without name hs ≡ some rest) × (less ≡ h ∷ rest))
unfolding without
without-cases name h hs less e = elim (Bool-cases (str_eq h.name name)) [
  | inl t ↦ inl (ground (arith, eq_iff h.name name), ground arith)
  | inr f ↦ elim (Option-cases (without name hs)) [
    | inl n ↦ absurd (ground arith)
    | inr (rest, s) ↦ inr (rest, s, ground arith)
  ]
]

-- What the loop finds is one hook of that name, and the others are kept.
pub without-perm :
    (name : String) (hs less : List ShutdownHook)
    → without name hs ≡ some less
    → (h : ShutdownHook) × (h.name ≡ name) × Perm (h ∷ less) hs
unfolding without
without-perm name [] less e = absurd (ground arith)
without-perm name (h ∷ hs) less e = elim (without-cases name h hs less e) [
  | inl (named, same) ↦ (h, named, rw same (Perm.refl (h ∷ hs)))
  | inr (rest, s, same) ↦
      let (gone, named, p) = without-perm name hs rest s in
      (gone, named, rw same (Perm.trans (Perm.swap h gone rest) (Perm.cons h p)))
]

pub without-AtLeast :
    (p : ℤ) (name : String) (hs less : List ShutdownHook)
    → without name hs ≡ some less
    → AtLeast p hs
    → AtLeast p less
unfolding without
without-AtLeast p name [] less e a = absurd (ground arith)
without-AtLeast p name (h ∷ hs) less e a = elim (without-cases name h hs less e) [
  | inl (named, same) ↦ rw same a.1
  | inr (rest, s, same) ↦ rw same (a.0, without-AtLeast p name hs rest s a.1)
]

pub without-Sorted :
    (name : String) (hs less : List ShutdownHook)
    → without name hs ≡ some less
    → Sorted hs
    → Sorted less
unfolding without
without-Sorted name [] less e v = absurd (ground arith)
without-Sorted name (h ∷ hs) less e v = elim (without-cases name h hs less e) [
  | inl (named, same) ↦ rw same v.1
  | inr (rest, s, same) ↦
      rw same (without-AtLeast h.priority name hs rest s v.0, without-Sorted name hs rest s v.1)
]

pub remove_hook_known :
    (phase : ShutdownPhase) (name : String) (m : ShutdownHookManager) (hs less : List ShutdownHook)
    → lookup phase m.hooks ≡ some hs
    → without name hs ≡ some less
    → remove_hook phase name m ≡ (record m { hooks = insert phase less m.hooks }, true)
unfolding remove_hook
remove_hook_known phase name m hs less e f = ground arith

pub lookup-remove_hook :
    (phase other : ShutdownPhase) (name : String) (m : ShutdownHookManager)
    (hs less : List ShutdownHook)
    → lookup phase m.hooks ≡ some hs
    → without name hs ≡ some less
    → lookup other (remove_hook phase name m).0.hooks
      ≡ (if str_eq phase other then some less else lookup other m.hooks)
lookup-remove_hook phase other name m hs less e f =
    rw (remove_hook_known phase name m hs less e f) (lookup-insert phase other less m.hooks)

-- A removal that answers true has taken one hook of that name out of the phase; the others stay, in
-- order if they were, and the count falls by one.
pub remove_hook_correct :
    (phase : ShutdownPhase) (name : String) (m : ShutdownHookManager)
    → (remove_hook phase name m).1 ≡ true
    → ((h : ShutdownHook) × (h.name ≡ name)
        × Perm (h ∷ get_hooks phase (remove_hook phase name m).0) (get_hooks phase m))
      × (get_hook_count (remove_hook phase name m).0 + 1 ≡ get_hook_count m)
unfolding remove_hook get_hooks get_hook_count
remove_hook_correct phase name m r = elim (Option-cases (lookup phase m.hooks)) [
  | inl e ↦ absurd (ground arith)
  | inr (hs, e) ↦ elim (Option-cases (without name hs)) [
    | inl f ↦ absurd (ground arith)
    | inr (less, f) ↦
        let (gone, named, p) = without-perm name hs less f in
        (
          (
            gone,
            named,
            rw
                (
                  remove_hook_known phase name m hs less e f,
                  lookup-insert phase phase less m.hooks,
                  eq_refl phase,
                  e,
                )
                p,
          ),
          rw (remove_hook_known phase name m hs less e f)
              (omega (arith, total-insert phase less hs m.hooks e, length-perm p)),
        )
  ]
]
