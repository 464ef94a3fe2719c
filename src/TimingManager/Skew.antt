-- ===== src/TimingManager/Skew.antt =====
-- Deadlines and the skew of the clocks (pkg/agent/timing_manager.go).
use livekit_agent_sdk_go.Prelude.{
  ◌≡◌, true, String, some, [], ◌∷◌, arith, str_eq, eq_refl, ◌∙◌, inl, inr, Bool-cases,
}
use livekit_agent_sdk_go.Prelude.Dict.{Dict, lookup, insert, lookup-insert}
use livekit_agent_sdk_go.Prelude.Int.{ℤ, ◌+ℤ◌, ◌-ℤ◌, ltb_ℤ, +ℤ_parts, -ℤ_parts, eq_of_parts}
use livekit_agent_sdk_go.TimingManager.{
  TimingManager, DeadlineContext, set_deadline, check_deadline, server_time_now, apply_offset,
  adjust_deadlines_for_skew, shift, check_found, deadline_context, abs,
}

check_set :
    (id from : String) (deadline at now : ℤ) (m : TimingManager)
    → (check_deadline id now (set_deadline id deadline from at m)).1
      ≡ ltb_ℤ (deadline -ℤ m.server_time_offset) now
unfolding check_deadline set_deadline check_found deadline_context
check_set id from deadline at now m =
    rw
      (
        lookup-insert id id (deadline_context id deadline from at m.server_time_offset) m.deadlines,
        eq_refl id,
      )
      (ground arith)

shifted_order :
    (deadline offset now : ℤ) → ltb_ℤ (deadline -ℤ offset) now ≡ ltb_ℤ deadline (now +ℤ offset)
shifted_order deadline offset now = ground (arith, -ℤ_parts deadline offset, +ℤ_parts now offset)

-- While the offset stays as it was when the deadline was set, the deadline counts as exceeded
-- exactly when the server's clock, as the manager computes it, is past it.
pub deadline_in_server_time :
    (id from : String) (deadline at now : ℤ) (m : TimingManager)
    → (check_deadline id now (set_deadline id deadline from at m)).1
      ≡ ltb_ℤ deadline (server_time_now now m)
unfolding server_time_now
deadline_in_server_time id from deadline at now m =
    check_set id from deadline at now m ∙ shifted_order deadline m.server_time_offset now

lookup-adjust :
    (by : ℤ) (id : String) (d : DeadlineContext) (ds : Dict DeadlineContext)
    → lookup id ds ≡ some d
    → lookup id (adjust_deadlines_for_skew by ds) ≡ some (shift by d)
unfolding lookup adjust_deadlines_for_skew
lookup-adjust by id d [] e = absurd (ground arith)
lookup-adjust by id d ((j, c) ∷ ds) e = elim (Bool-cases (str_eq j id)) [
  | inl t ↦ ground arith
  | inr f ↦ rw f (lookup-adjust by id d ds (ground arith))
]

-- What becomes of a deadline that was set under the old offset when a skew is detected: the
-- adjustment is added, so the deadline moves away from the one that is right for the new offset,
-- `deadline - avg`, by twice the change of the offset.
pub skew_moves_away :
    (id from : String) (deadline at avg : ℤ) (m : TimingManager)
    → ltb_ℤ m.skew_threshold (abs avg) ≡ true
    → (d : DeadlineContext) × (lookup id
          (apply_offset avg (set_deadline id deadline from at m)).deadlines
        ≡ some d)
      × (d.adjusted_deadline
          ≡ (deadline -ℤ avg) +ℤ (avg -ℤ m.server_time_offset) +ℤ (avg -ℤ m.server_time_offset))
unfolding apply_offset set_deadline shift deadline_context
skew_moves_away id from deadline at avg m h =
    let old = m.server_time_offset in
    let by = avg -ℤ old in
    let d = deadline_context id deadline from at old in
    (
      shift by d,
      rw h (
          lookup-adjust by id d (insert id d m.deadlines)
            (ground (arith, lookup-insert id id d m.deadlines, eq_refl id))),
      eq_of_parts _ _ (
          omega (
            arith,
            -ℤ_parts deadline old,
            -ℤ_parts avg old,
            -ℤ_parts deadline avg,
            +ℤ_parts (deadline -ℤ old) by,
            +ℤ_parts (deadline -ℤ avg) by,
            +ℤ_parts ((deadline -ℤ avg) +ℤ by) by,
          )),
    )
