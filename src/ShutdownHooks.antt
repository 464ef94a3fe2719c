-- ===== src/ShutdownHooks.antt =====
-- pkg/agent/shutdown_hooks.go: the hooks that run in the phases of the worker's shutdown. Every
-- method holds the mutex, so it is one step. Log lines are left out. A handler is a number that
-- names the function, and 0 is none; how its goroutine ends is given by the environment that runs the phase.
pub mod Sorting
pub mod Validity
pub mod Registry
pub mod Execution
mod Examples
use livekit_agent_sdk_go.Prelude.{
  ℕ, suc, ◌+◌, zero, String, Bool, true, false, Option, none, some, List, [], ◌∷◌, ◌++◌, ◌==◌,
  if◌then◌else◌, is_some, length, str_eq,
}
use livekit_agent_sdk_go.Prelude.Dict.{Dict, lookup, insert}
use livekit_agent_sdk_go.Prelude.Int.{ℤ, pos, negsuc, ltb_ℤ}

-- Durations are in nanoseconds, which may be negative.
pub record ShutdownHook : Type 0 where
  pub name : String
  pub priority : ℤ
  pub timeout : ℤ
  pub handler : ℕ

-- ShutdownPhase is a string type with five constants.
abbrev pub ShutdownPhase : Type 0
ShutdownPhase = String

abbrev pub phase_pre_stop : ShutdownPhase
phase_pre_stop = "pre_stop"

abbrev pub phase_stop_jobs : ShutdownPhase
phase_stop_jobs = "stop_jobs"

abbrev pub phase_post_jobs : ShutdownPhase
phase_post_jobs = "post_jobs"

abbrev pub phase_cleanup : ShutdownPhase
phase_cleanup = "cleanup"

abbrev pub phase_final : ShutdownPhase
phase_final = "final"

pub record ShutdownHookManager : Type 0 where
  pub hooks : Dict (List ShutdownHook)

unfoldable pub new_shutdown_hook_manager : ShutdownHookManager
new_shutdown_hook_manager = record {
  hooks =
      (phase_pre_stop, [])
      ∷ (phase_stop_jobs, [])
      ∷ (phase_post_jobs, [])
      ∷ (phase_cleanup, [])
      ∷ (phase_final, [])
      ∷ [];
}

-- `m.hooks[phase]`, which is nil for a missing key.
abbrev pub hooks_of : Option (List ShutdownHook) → List ShutdownHook
hooks_of none = []
hooks_of (some hs) = hs

-- The inner loop of sortHooks for one position: `held` is hooks[i], and the list is the part
-- behind it. Each entry with a smaller priority changes places with hooks[i].
unfoldable pub settle : ShutdownHook → List ShutdownHook → ShutdownHook × List ShutdownHook
settle held [] = (held, [])
settle held (h ∷ hs) =
    let swapped = settle h hs in
    let kept = settle held hs in
    if ltb_ℤ h.priority held.priority then (swapped.0, held ∷ swapped.1) else (kept.0, h ∷ kept.1)

-- The outer loop over the given number of positions: what stands before them is not read again.
unfoldable pub sort_positions : ℕ → List ShutdownHook → List ShutdownHook
unfolding settle
sort_positions zero hs = hs
sort_positions (suc n) [] = []
sort_positions (suc n) (h ∷ hs) = (settle h hs).0 ∷ sort_positions n (settle h hs).1

unfoldable pub sort_hooks : List ShutdownHook → List ShutdownHook
unfolding sort_positions
sort_hooks hs = sort_positions (length hs) hs

abbrev pub is_zero_ℤ : ℤ → Bool
is_zero_ℤ (pos n) = n == 0
is_zero_ℤ (negsuc n) = false

-- 5 * time.Second
abbrev pub default_timeout : ℤ
default_timeout = pos 5000000000

unfoldable pub with_default_timeout : ShutdownHook → ShutdownHook
with_default_timeout hook =
    if is_zero_ℤ hook.timeout then record hook { timeout = default_timeout } else hook

-- The new state, and the phase that the error names, if it is not one of the map.
unfoldable pub add_hook :
    ShutdownPhase → ShutdownHook → ShutdownHookManager → ShutdownHookManager × Option ShutdownPhase
unfolding sort_hooks with_default_timeout
add_hook phase hook m = elim (lookup phase m.hooks) [
  | none ↦ (m, some phase)
  | some hs ↦ (
    record m { hooks = insert phase (sort_hooks (hs ++ with_default_timeout hook ∷ [])) m.hooks },
    none,
  )
]

-- How the goroutine of a hook ends: its handler answers an error or nil, or panics, or the hook's
-- context is done first.
pub data HookEnd : Type 0 where
  answered : Option String → HookEnd
  panicked : String → HookEnd
  expired : HookEnd

pub data HookError : Type 0 where
  hook_failed : String → String → HookError
  hook_panicked : String → String → HookError
  hook_timed_out : String → ℤ → HookError

unfoldable pub execute_hook : (ShutdownHook → HookEnd) → ShutdownHook → Option HookError
execute_hook env hook = elim (env hook) [
  | answered none ↦ none
  | answered (some err) ↦ some (hook_failed hook.name err)
  | panicked value ↦ some (hook_panicked hook.name value)
  | expired ↦ some (hook_timed_out hook.name hook.timeout)
]

abbrev or_else : Option HookError → Option HookError → Option HookError
or_else none later = later
or_else (some err) later = some err

-- The loop over the copied hooks with `firstError` in hand: the hooks that were started, in order,
-- and the first error.
unfoldable pub execute_all :
    (ShutdownHook → HookEnd)
    → List ShutdownHook
    → Option HookError
    → List ShutdownHook × Option HookError
unfolding execute_hook
execute_all env [] first = ([], first)
execute_all env (hook ∷ rest) first =
    let (started, err) = execute_all env rest (or_else first (execute_hook env hook)) in
    (hook ∷ started, err)

unfoldable pub execute_phase :
    (ShutdownHook → HookEnd)
    → ShutdownPhase
    → ShutdownHookManager
    → List ShutdownHook × Option HookError
unfolding execute_all
execute_phase env phase m =
    let hs = hooks_of (lookup phase m.hooks) in
    if length hs == 0 then ([], none) else execute_all env hs none

-- The loop of RemoveHook: the list without the first hook of that name, if there is one.
unfoldable pub without : String → List ShutdownHook → Option (List ShutdownHook)
without name [] = none
without name (h ∷ hs) =
    let rest = without name hs in
    if str_eq h.name name then some hs else elim rest [ none ↦ none | some less ↦ some (h ∷ less) ]

unfoldable pub remove_hook :
    ShutdownPhase → String → ShutdownHookManager → ShutdownHookManager × Bool
unfolding without
remove_hook phase name m = elim (lookup phase m.hooks) [
  | none ↦ (m, false)
  | some hs ↦ elim (without name hs) [
    | none ↦ (m, false)
    | some less ↦ (record m { hooks = insert phase less m.hooks }, true)
  ]
]

unfoldable pub get_hooks : ShutdownPhase → ShutdownHookManager → List ShutdownHook
get_hooks phase m = hooks_of (lookup phase m.hooks)

unfoldable pub clear_hooks : ShutdownPhase → ShutdownHookManager → ShutdownHookManager
clear_hooks phase m =
    if is_some (lookup phase m.hooks) then record m { hooks = insert phase [] m.hooks } else m

abbrev emptied : Dict (List ShutdownHook) → Dict (List ShutdownHook)
emptied [] = []
emptied ((phase, hs) ∷ rest) = (phase, []) ∷ emptied rest

unfoldable pub clear_all_hooks : ShutdownHookManager → ShutdownHookManager
clear_all_hooks m = record m { hooks = emptied m.hooks }

abbrev pub total : Dict (List ShutdownHook) → ℕ
total [] = 0
total ((phase, hs) ∷ rest) = length hs + total rest

unfoldable pub get_hook_count : ShutdownHookManager → ℕ
get_hook_count m = total m.hooks

-- The hooks of DefaultShutdownHooks, for a handler that is given.
abbrev pub new_metrics_flush_hook : ℕ → ShutdownHook
new_metrics_flush_hook flush = record {
  name = "metrics_flush";
  priority = pos 100;
  timeout = pos 3000000000;
  handler = flush;
}

abbrev pub new_connection_drain_hook : ℕ → ShutdownHook
new_connection_drain_hook drain = record {
  name = "connection_drain";
  priority = pos 50;
  timeout = pos 10000000000;
  handler = drain;
}

abbrev pub new_state_backup_hook : ℕ → ShutdownHook
new_state_backup_hook backup = record {
  name = "state_backup";
  priority = pos 75;
  timeout = pos 5000000000;
  handler = backup;
}

-- ShutdownHookBuilder: the hook that is being built, changed in place by each method.
abbrev pub new_shutdown_hook_builder : String → ShutdownHook
new_shutdown_hook_builder name = record {
  name = name;
  priority = pos 100;
  timeout = default_timeout;
  handler = 0;
}

abbrev pub with_priority : ℤ → ShutdownHook → ShutdownHook
with_priority priority hook = record hook { priority = priority }

abbrev pub with_timeout : ℤ → ShutdownHook → ShutdownHook
with_timeout timeout hook = record hook { timeout = timeout }

abbrev pub with_handler : ℕ → ShutdownHook → ShutdownHook
with_handler handler hook = record hook { handler = handler }
