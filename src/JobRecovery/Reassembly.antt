-- ===== src/JobRecovery/Reassembly.antt =====
-- PartialMessageBuffer (pkg/agent/job_recovery.go) over sequences of calls.
use mathlib.Core.List.{append-nil, append_assoc}
use livekit_agent_sdk_go.Prelude.{
  ℕ, ◌+◌, ◌≤◌, ◌≡◌, refl, sym, ap, ◌∙◌, ◌⊎◌, Bool, true, ◌&&◌, some, List, [], ◌∷◌, ◌++◌, arith,
  length, length-append, inl, inr,
}
use livekit_agent_sdk_go.JobRecovery.PartialMessages.{
  PartialMessageBuffer, start_message, append_part, get_complete, clear_parts,
}

-- One call of a method that changes the buffer.
pub data Call : Type 0 where
  append_call : ℕ → List ℕ → ℕ → Call
  complete_call clear_call : Call

module _ (is_json : List ℕ → Bool) where
  unfoldable pub step : Call → PartialMessageBuffer → PartialMessageBuffer
  step (append_call t part now) b = (append_part t part now b).0
  step complete_call b = (get_complete is_json b).0
  step clear_call b = clear_parts b

  unfoldable pub run : List Call → PartialMessageBuffer → PartialMessageBuffer
  run [] b = b
  run (c ∷ cs) b = run cs (step c b)

  append_part-bounded :
      (t now : ℕ) (part : List ℕ) (b : PartialMessageBuffer)
      → length b.buffer ≤ b.max_size
      → (length (append_part t part now b).0.buffer ≤ b.max_size)
        × ((append_part t part now b).0.max_size ≡ b.max_size)
  unfolding append_part start_message
  append_part-bounded t now part b h = ground (arith, length-append b.buffer part)

  step-bounded :
      (c : Call) (b : PartialMessageBuffer)
      → length b.buffer ≤ b.max_size
      → (length (step c b).buffer ≤ b.max_size) × ((step c b).max_size ≡ b.max_size)
  unfolding step get_complete clear_parts
  step-bounded (append_call t part now) b h = append_part-bounded t now part b h
  step-bounded complete_call b h = ground arith
  step-bounded clear_call b h = ground arith

  -- A buffer that is within its limit stays within it, whatever parts come, of whatever types.
  pub buffer_bounded :
      (cs : List Call) (b : PartialMessageBuffer)
      → length b.buffer ≤ b.max_size
      → length (run cs b).buffer ≤ b.max_size
  unfolding run
  buffer_bounded [] b h = h
  buffer_bounded (c ∷ cs) b h =
      let (less, same) = step-bounded c b h in
      omega (arith, buffer_bounded cs (step c b) (omega (arith, less, same)), same)

-- The parts with their times, appended one after another; `true` if none was refused.
unfoldable pub append_parts :
    ℕ → List (List ℕ × ℕ) → PartialMessageBuffer → PartialMessageBuffer × Bool
append_parts t [] b = (b, true)
append_parts t ((part, now) ∷ ps) b =
    let (b', taken) = append_part t part now b in
    let (last, all) = append_parts t ps b' in (last, taken && all)

abbrev pub joined : List (List ℕ × ℕ) → List ℕ
joined [] = []
joined ((part, now) ∷ ps) = part ++ joined ps

append_part-fits :
    (t now : ℕ) (part : List ℕ) (b : PartialMessageBuffer)
    → (b.message_type ≡ t) ⊎ (b.buffer ≡ [])
    → length b.buffer + length part ≤ b.max_size
    → append_part t part now b
      ≡ (record b { buffer = b.buffer ++ part; message_type = t; last_update = now }, true)
unfolding append_part start_message
append_part-fits t now part b (inl e) h = ground arith
append_part-fits t now part b (inr e) h = ground (arith, ap length e)

parts-joined :
    (t : ℕ) (ps : List (List ℕ × ℕ)) (b : PartialMessageBuffer)
    → b.message_type ≡ t
    → length b.buffer + length (joined ps) ≤ b.max_size
    → ((append_parts t ps b).1 ≡ true)
      × ((append_parts t ps b).0.buffer ≡ b.buffer ++ joined ps)
      × ((append_parts t ps b).0.message_type ≡ t)
unfolding append_parts
parts-joined t [] b e h = (refl, sym (append-nil b.buffer), e)
parts-joined t ((part, now) ∷ ps) b e h =
    let first =
      append_part-fits t now part b (inl e) (omega (arith, length-append part (joined ps))) in
    let next = record b { buffer = b.buffer ++ part; message_type = t; last_update = now } in
    let (all, put, typed) =
      parts-joined t ps next refl
        (omega (arith, length-append part (joined ps), length-append b.buffer part)) in
    rw first (all, put ∙ append_assoc b.buffer part (joined ps), typed)

-- A text that arrives in any number of parts, at least one, into an empty buffer that has room for it
-- all, is taken whole: no part is refused, and if the bytes together are a JSON text then
-- `GetComplete` hands out exactly those bytes.
pub text_reassembled :
    (is_json : List ℕ → Bool) (part : List ℕ) (now : ℕ) (ps : List (List ℕ × ℕ))
    (b : PartialMessageBuffer)
    → b.buffer ≡ []
    → length (joined ((part, now) ∷ ps)) ≤ b.max_size
    → 1 ≤ length (joined ((part, now) ∷ ps))
    → is_json (joined ((part, now) ∷ ps)) ≡ true
    → ((append_parts 1 ((part, now) ∷ ps) b).1 ≡ true)
      × ((get_complete is_json (append_parts 1 ((part, now) ∷ ps) b).0).1
          ≡ some (1, joined ((part, now) ∷ ps)))
unfolding append_parts get_complete
text_reassembled is_json part now ps b e room some_bytes json =
    let first =
      append_part-fits 1 now part b (inr e)
        (omega (arith, length-append part (joined ps), ap length e)) in
    let next = record b { buffer = b.buffer ++ part; message_type = 1; last_update = now } in
    let (all, put, typed) =
      parts-joined 1 ps next refl
        (omega (arith, length-append part (joined ps), length-append b.buffer part, ap length e)) in
    let whole : (append_parts 1 ps next).0.buffer ≡ part ++ joined ps =
      put ∙ ap (λ xs. (xs ++ part) ++ joined ps) e in
    rw first (all, ground (arith, whole, typed, some_bytes, json, ap length whole))
