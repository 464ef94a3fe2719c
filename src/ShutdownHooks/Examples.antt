-- ===== src/ShutdownHooks/Examples.antt =====
-- Concrete runs of the shutdown hooks.
use mathlib.Core.List.{Mem}
use livekit_agent_sdk_go.Prelude.{◌≡◌, refl, none, some, List, [], ◌∷◌, str_eq, if◌then◌else◌}
use livekit_agent_sdk_go.Prelude.Dict.{lookup, insert}
use livekit_agent_sdk_go.Prelude.Int.{pos, negsuc}
use livekit_agent_sdk_go.ShutdownHooks.{
  new_shutdown_hook_builder, with_priority, with_timeout, ShutdownHook, ShutdownHookManager,
  HookEnd, answered, panicked, new_shutdown_hook_manager, add_hook, get_hooks, execute_phase,
  with_default_timeout, phase_final, phase_cleanup, clear_hooks, new_metrics_flush_hook,
  new_state_backup_hook, hook_panicked, settle,
}
use livekit_agent_sdk_go.ShutdownHooks.Validity.{
  IsValid, Call, add, remove, clear, run, phases_stay_sorted, new_shutdown_hook_manager-IsValid,
  step,
}
use livekit_agent_sdk_go.ShutdownHooks.Execution.{registered_hook_runs, all_spare, spares}

abbrev hasty : ShutdownHook
hasty = record { name = "hasty"; priority = negsuc 0; timeout = pos 0; handler = 7 }

abbrev history : List Call
history =
    add phase_final (new_metrics_flush_hook 1)
    ∷ add phase_final (new_state_backup_hook 2)
    ∷ add phase_final hasty
    ∷ clear phase_cleanup
    ∷ []

abbrev running : ShutdownHookManager
running = run history new_shutdown_hook_manager

env : ShutdownHook → HookEnd
env h = if str_eq h.name "hasty" then panicked "nil map" else answered none

run_order :
    get_hooks phase_final running
    ≡ with_default_timeout hasty ∷ new_state_backup_hook 2 ∷ new_metrics_flush_hook 1 ∷ []
unfolding get_hooks new_shutdown_hook_manager add_hook run step lookup insert settle clear_hooks
run_order = refl

first_failure : (execute_phase env phase_final running).1 ≡ some (hook_panicked "hasty" "nil map")
unfolding execute_phase new_shutdown_hook_manager add_hook run step lookup insert settle clear_hooks
    env
first_failure = refl

abbrev held : List ShutdownHook
held = with_default_timeout hasty ∷ new_state_backup_hook 2 ∷ new_metrics_flush_hook 1 ∷ []

held_final : lookup phase_final running.hooks ≡ some held
unfolding new_shutdown_hook_manager add_hook run step lookup insert settle clear_hooks
    with_default_timeout
held_final = refl

running-IsValid : IsValid phase_final running
running-IsValid =
    phases_stay_sorted phase_final history new_shutdown_hook_manager
      (new_shutdown_hook_manager-IsValid phase_final)

registered_hook_runs_example :
    Mem
      (with_default_timeout hasty)
      (execute_phase env phase_final (
        run
          (add phase_final hasty ∷ remove phase_final "state_backup" ∷ clear phase_cleanup ∷ [])
          running)).0
unfolding all_spare spares
registered_hook_runs_example =
    registered_hook_runs env phase_final hasty
      (remove phase_final "state_backup" ∷ clear phase_cleanup ∷ []) running held running-IsValid
      held_final refl

built :
    with_timeout (pos 7) (with_priority (negsuc 0) (new_shutdown_hook_builder "hasty"))
    ≡ record hasty { timeout = pos 7; handler = 0 }
built = refl
