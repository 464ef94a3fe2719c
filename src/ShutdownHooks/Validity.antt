-- ===== src/ShutdownHooks/Validity.antt =====
-- Sequences of calls of the methods of ShutdownHookManager (pkg/agent/shutdown_hooks.go), and what a
-- well-formed manager holds for a phase.
use livekit_agent_sdk_go.Prelude.{
  ◌≡◌, refl, inl, inr, Bool-cases, Option-cases, String, none, some, List, [], ◌∷◌, ◌++◌, arith,
  str_eq, eq_iff, if◌then◌else◌, is_some,
}
use livekit_agent_sdk_go.Prelude.Dict.{Dict, lookup, lookup-insert}
use livekit_agent_sdk_go.ShutdownHooks.{
  ShutdownHook, ShutdownHookManager, ShutdownPhase, new_shutdown_hook_manager, hooks_of, add_hook,
  remove_hook, without, clear_hooks, clear_all_hooks, emptied, with_default_timeout,
}
use livekit_agent_sdk_go.ShutdownHooks.Sorting.{Sorted, sort_hooks-Sorted}
use livekit_agent_sdk_go.ShutdownHooks.Registry.{
  lookup-add_hook, lookup-remove_hook, without-Sorted,
}

-- The calls of the methods that change a manager.
pub data Call : Type 0 where
  add : ShutdownPhase → ShutdownHook → Call
  remove : ShutdownPhase → String → Call
  clear : ShutdownPhase → Call
  clear_all : Call

unfoldable pub step : Call → ShutdownHookManager → ShutdownHookManager
step (add phase hook) m = (add_hook phase hook m).0
step (remove phase name) m = (remove_hook phase name m).0
step (clear phase) m = clear_hooks phase m
step clear_all m = clear_all_hooks m

unfoldable pub run : List Call → ShutdownHookManager → ShutdownHookManager
run [] m = m
run (c ∷ cs) m = run cs (step c m)

-- What a manager holds for one phase: a list in order if the phase is one of the five, else nothing.
abbrev pub IsValid : ShutdownPhase → ShutdownHookManager → Type 0
IsValid phase m =
    (is_some (lookup phase m.hooks) ≡ is_some (lookup phase new_shutdown_hook_manager.hooks))
    × Sorted (hooks_of (lookup phase m.hooks))

pub add_hook-IsValid :
    (phase other : ShutdownPhase) (hook : ShutdownHook) (m : ShutdownHookManager)
    → IsValid other m
    → IsValid other (add_hook phase hook m).0
unfolding add_hook
add_hook-IsValid phase other hook m v = elim (Option-cases (lookup phase m.hooks)) [
  | inl e ↦ ground (arith, v)
  | inr (hs, e) ↦ elim (Bool-cases (str_eq phase other)) [
    | inl t ↦ (
      ground (arith, eq_iff phase other, lookup-add_hook phase other hook m hs e),
      rw (lookup-add_hook phase other hook m hs e, t)
          (sort_hooks-Sorted (hs ++ with_default_timeout hook ∷ [])),
    )
    | inr f ↦ rw (lookup-add_hook phase other hook m hs e, f) v
  ]
]

pub remove_hook-IsValid :
    (phase other : ShutdownPhase) (name : String) (m : ShutdownHookManager)
    → IsValid other m
    → IsValid other (remove_hook phase name m).0
unfolding remove_hook
remove_hook-IsValid phase other name m v = elim (Option-cases (lookup phase m.hooks)) [
  | inl e ↦ ground (arith, v)
  | inr (hs, e) ↦ elim (Option-cases (without name hs)) [
    | inl f ↦ ground (arith, v)
    | inr (less, f) ↦ elim (Bool-cases (str_eq phase other)) [
      | inl t ↦ (
        ground (arith, eq_iff phase other, lookup-remove_hook phase other name m hs less e f),
        rw (lookup-remove_hook phase other name m hs less e f, t)
            (without-Sorted name hs less f (ground (arith, eq_iff phase other, v.1))),
      )
      | inr n ↦ rw (lookup-remove_hook phase other name m hs less e f, n) v
    ]
  ]
]

pub clear_hooks-IsValid :
    (phase other : ShutdownPhase) (m : ShutdownHookManager)
    → IsValid other m
    → IsValid other (clear_hooks phase m)
unfolding clear_hooks
clear_hooks-IsValid phase other m v =
    ground (arith, eq_iff phase other, lookup-insert phase other [] m.hooks)

pub lookup-emptied :
    (phase : ShutdownPhase) (d : Dict (List ShutdownHook))
    → lookup phase (emptied d) ≡ (if is_some (lookup phase d) then some [] else none)
unfolding lookup
lookup-emptied phase [] = refl
lookup-emptied phase ((at, hs) ∷ d) = ground (arith, lookup-emptied phase d)

clear_all_hooks-IsValid :
    (phase : ShutdownPhase) (m : ShutdownHookManager)
    → IsValid phase m
    → IsValid phase (clear_all_hooks m)
unfolding clear_all_hooks
clear_all_hooks-IsValid phase m v = ground (arith, lookup-emptied phase m.hooks)

pub step-IsValid :
    (phase : ShutdownPhase) (c : Call) (m : ShutdownHookManager)
    → IsValid phase m
    → IsValid phase (step c m)
unfolding step
step-IsValid phase (add at hook) m v = add_hook-IsValid at phase hook m v
step-IsValid phase (remove at name) m v = remove_hook-IsValid at phase name m v
step-IsValid phase (clear at) m v = clear_hooks-IsValid at phase m v
step-IsValid phase clear_all m v = clear_all_hooks-IsValid phase m v

pub new_shutdown_hook_manager-IsValid :
    (phase : ShutdownPhase) → IsValid phase new_shutdown_hook_manager
unfolding new_shutdown_hook_manager lookup
new_shutdown_hook_manager-IsValid phase = (refl, ground arith)

-- Whatever methods are called, in any order, the manager keeps the phases that it was made with and
-- no others, and the hooks of each stand in the order of their priorities.
pub phases_stay_sorted :
    (phase : ShutdownPhase) (cs : List Call) (m : ShutdownHookManager)
    → IsValid phase m
    → IsValid phase (run cs m)
unfolding run
phases_stay_sorted phase [] m v = v
phases_stay_sorted phase (c ∷ cs) m v =
    phases_stay_sorted phase cs (step c m) (step-IsValid phase c m v)
