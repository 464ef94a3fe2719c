-- ===== src/ShutdownHooks/Execution.antt =====
-- ExecutePhase (pkg/agent/shutdown_hooks.go): which hooks are started, in which order, and which
-- error is answered.
use mathlib.Core.List.{Mem, Mem-prop, eq-or-mem_of_mem-cons, mem-cons_of_mem, mem-cons_self}
use mathlib.Core.List.Perm
use mathlib.Core.Logic.Or
use livekit_agent_sdk_go.Prelude.{
  ◌≡◌, refl, inl, inr, Bool, Bool-cases, Option-cases, true, false, not, ◌&&◌, String, Option, none,
  some, List, [], ◌∷◌, arith, str_eq, eq_iff, eq_refl,
}
use livekit_agent_sdk_go.Prelude.Dict.{lookup, lookup-insert}
use livekit_agent_sdk_go.ShutdownHooks.{
  ShutdownHook, ShutdownHookManager, ShutdownPhase, HookEnd, HookError, hooks_of, add_hook,
  remove_hook, without, get_hooks, clear_hooks, with_default_timeout, execute_hook, execute_all,
  execute_phase, or_else,
}
use livekit_agent_sdk_go.ShutdownHooks.Sorting.{Sorted}
use livekit_agent_sdk_go.ShutdownHooks.Registry.{
  lookup-add_hook, lookup-remove_hook, without-perm, added-perm,
}
use livekit_agent_sdk_go.ShutdownHooks.Validity.{
  IsValid, Call, add, remove, clear, clear_all, step, run, phases_stay_sorted, add_hook-IsValid,
}

-- The failures of the hooks, in the order in which they run.
unfoldable pub failures : (ShutdownHook → HookEnd) → List ShutdownHook → List HookError
failures env [] = []
failures env (h ∷ hs) = elim (execute_hook env h) [
  | none ↦ failures env hs
  | some err ↦ err ∷ failures env hs
]

abbrev pub head? : List HookError → Option HookError
head? [] = none
head? (err ∷ errs) = some err

execute_all-outcome :
    (env : ShutdownHook → HookEnd) (hs : List ShutdownHook) (first : Option HookError)
    → execute_all env hs first ≡ (hs, or_else first (head? (failures env hs)))
unfolding execute_all failures
execute_all-outcome env [] none = refl
execute_all-outcome env [] (some err) = refl
execute_all-outcome env (h ∷ hs) none =
    ground (arith, execute_all-outcome env hs (execute_hook env h))
execute_all-outcome env (h ∷ hs) (some err) = ground (arith, execute_all-outcome env hs (some err))

pub execute_phase_correct :
    (env : ShutdownHook → HookEnd) (phase : ShutdownPhase) (m : ShutdownHookManager)
    → IsValid phase m
    → ((execute_phase env phase m).0 ≡ get_hooks phase m)
      × Sorted (execute_phase env phase m).0
      × ((execute_phase env phase m).1 ≡ head? (failures env (get_hooks phase m)))
unfolding execute_phase get_hooks failures
execute_phase_correct env phase m v =
    let run_all = execute_all-outcome env (hooks_of (lookup phase m.hooks)) none in
    elim (Option-cases (lookup phase m.hooks)) [
      | inl e ↦ (ground arith, ground arith, ground arith)
      | inr ([], e) ↦ (ground arith, ground arith, ground arith)
      | inr (h ∷ hs, e) ↦
          (ground (arith, run_all), ground (arith, run_all, v.1), ground (arith, run_all))
    ]

-- The call leaves alone the hooks of this name in this phase.
unfoldable pub spares : ShutdownPhase → String → Call → Bool
spares phase name (add at hook) = true
spares phase name (remove at other) = not (str_eq at phase && str_eq other name)
spares phase name (clear at) = not (str_eq at phase)
spares phase name clear_all = false

unfoldable pub all_spare : ShutdownPhase → String → List Call → Bool
all_spare phase name [] = true
all_spare phase name (c ∷ cs) = spares phase name c && all_spare phase name cs

mem-without :
    (name : String) (h : ShutdownHook) (hs less : List ShutdownHook)
    → without name hs ≡ some less
    → str_eq name h.name ≡ false
    → Mem h hs
    → Mem h less
mem-without name h hs less e n at =
    let (gone, named, p) = without-perm name hs less e in
    Or.elim Mem-prop (eq-or-mem_of_mem-cons ((Perm.mem_iff p).1 at))
      (λ same. absurd (ground (arith, eq_iff name h.name))) (λ kept. kept)

mem-remove_hook :
    (phase at : ShutdownPhase) (name : String) (h : ShutdownHook) (m : ShutdownHookManager)
    → (str_eq at phase && str_eq name h.name) ≡ false
    → Mem h (get_hooks phase m)
    → Mem h (get_hooks phase (remove_hook at name m).0)
unfolding get_hooks remove_hook
mem-remove_hook phase at name h m n here = elim (Option-cases (lookup at m.hooks)) [
  | inl e ↦ ground (arith, here)
  | inr (hs, e) ↦ elim (Option-cases (without name hs)) [
    | inl f ↦ ground (arith, here)
    | inr (less, f) ↦ elim (Bool-cases (str_eq at phase)) [
      | inl t ↦
          rw (lookup-remove_hook at phase name m hs less e f, t)
            (mem-without name h hs less f (ground arith) (ground (arith, eq_iff at phase, here)))
      | inr g ↦ rw (lookup-remove_hook at phase name m hs less e f, g) here
    ]
  ]
]

mem-add_hook :
    (phase at : ShutdownPhase) (hook h : ShutdownHook) (m : ShutdownHookManager)
    → Mem h (get_hooks phase m)
    → Mem h (get_hooks phase (add_hook at hook m).0)
unfolding get_hooks add_hook
mem-add_hook phase at hook h m here = elim (Option-cases (lookup at m.hooks)) [
  | inl e ↦ ground (arith, here)
  | inr (hs, e) ↦ elim (Bool-cases (str_eq at phase)) [
    | inl t ↦
        rw (lookup-add_hook at phase hook m hs e, t)
          ((Perm.mem_iff (added-perm hs (with_default_timeout hook))).1
            (mem-cons_of_mem _ (ground (arith, eq_iff at phase, here))))
    | inr g ↦ rw (lookup-add_hook at phase hook m hs e, g) here
  ]
]

mem-clear_hooks :
    (phase at : ShutdownPhase) (h : ShutdownHook) (m : ShutdownHookManager)
    → str_eq at phase ≡ false
    → Mem h (get_hooks phase m)
    → Mem h (get_hooks phase (clear_hooks at m))
unfolding get_hooks clear_hooks
mem-clear_hooks phase at h m n here = ground (arith, lookup-insert at phase [] m.hooks, here)

mem-run :
    (phase : ShutdownPhase) (h : ShutdownHook) (cs : List Call) (m : ShutdownHookManager)
    → all_spare phase h.name cs ≡ true
    → Mem h (get_hooks phase m)
    → Mem h (get_hooks phase (run cs m))
unfolding run all_spare step spares
mem-run phase h [] m n here = here
mem-run phase h (add at hook ∷ cs) m n here =
    mem-run phase h cs _ n (mem-add_hook phase at hook h m here)
mem-run phase h (remove at name ∷ cs) m n here =
    mem-run phase h cs _ (ground arith) (mem-remove_hook phase at name h m (ground arith) here)
mem-run phase h (clear at ∷ cs) m n here =
    mem-run phase h cs _ (ground arith) (mem-clear_hooks phase at h m (ground arith) here)
mem-run phase h (clear_all ∷ cs) m n here = absurd (ground arith)

-- A hook that is added to one of the phases is started when that phase runs, with its timeout filled
-- in, whatever the other hooks do, and whatever methods are called in between, as long as none of
-- them removes a hook of its name from the phase or clears the phase.
pub registered_hook_runs :
    (env : ShutdownHook → HookEnd) (phase : ShutdownPhase) (hook : ShutdownHook) (cs : List Call)
    (m : ShutdownHookManager) (hs : List ShutdownHook)
    → IsValid phase m
    → lookup phase m.hooks ≡ some hs
    → all_spare phase hook.name cs ≡ true
    → Mem (with_default_timeout hook) (execute_phase env phase (run (add phase hook ∷ cs) m)).0
unfolding get_hooks run step with_default_timeout
registered_hook_runs env phase hook cs m hs v e n =
    let m' = (add_hook phase hook m).0 in
    let here = (Perm.mem_iff (added-perm hs (with_default_timeout hook))).1 mem-cons_self in
    let there =
      mem-run phase (with_default_timeout hook) cs m' (ground arith)
        (ground (arith, lookup-add_hook phase phase hook m hs e, eq_refl phase, here)) in
    rw
      (execute_phase_correct env phase (run cs m')
        (phases_stay_sorted phase cs m' (add_hook-IsValid phase phase hook m v))).0
      there
