-- ===== src/JobQueue/Priority.antt =====
-- The calculators of priorities.
use livekit_agent_sdk_go.Prelude.{
  ℕ, ◌≡◌, ◌≢◌, refl, String, false, arith, str_eq, eq_iff, eq_refl, Bool-cases, inl, inr,
}
use Prim.Native.String.{◌++◌}
use text.Mathlib.TextLemmas.{append_cancel_left, append-eq-nil_iff}
use livekit_agent_sdk_go.JobQueue.Item.{
  Job, job_priority_low, job_priority_high, job_priority_urgent,
}
use livekit_agent_sdk_go.JobQueue.{metadata_priority}

abbrev pub with_metadata : String → Job → Job
with_metadata m j = record j { metadata = m }

-- The values of the priority field that MetadataPriorityCalculator knows, with their priorities.
pub data Level : Type 0 where
  low high urgent : Level

unfoldable pub suffix : Level → String
suffix low = ":low"
suffix high = ":high"
suffix urgent = ":urgent"

unfoldable pub level_priority : Level → ℕ
level_priority low = job_priority_low
level_priority high = job_priority_high
level_priority urgent = job_priority_urgent

-- Texts that the test tells apart are different, also behind a common prefix.
append-ne : (f s t : String) → str_eq s t ≡ false → str_eq (f ++ s) (f ++ t) ≡ false
append-ne f s t h = elim (Bool-cases (str_eq (f ++ s) (f ++ t))) [
  | inl e ↦ cc (h, (eq_iff s t).1 (append_cancel_left f s t ((eq_iff (f ++ s) (f ++ t)).0 e)))
  | inr e ↦ e
]

append-ne-empty : (f s : String) → f ≢ "" → str_eq (f ++ s) "" ≡ false
append-ne-empty f s h = elim (Bool-cases (str_eq (f ++ s) "")) [
  | inl e ↦ absurd (h ((append-eq-nil_iff {p = f} {q = s}).0 ((eq_iff (f ++ s) "").0 e)).0)
  | inr e ↦ e
]

-- With a field name that is not empty, metadata of the form field:level gets the priority of the
-- level.
pub metadata_priority_levels :
    (field : String) (l : Level) (j : Job)
    → field ≢ ""
    → metadata_priority field (with_metadata (field ++ suffix l) j) ≡ level_priority l
unfolding metadata_priority suffix level_priority
metadata_priority_levels field low j h = ground (
  arith,
  append-ne-empty field ":low" h,
  eq_iff field "",
  append-ne field ":low" ":urgent" refl,
  append-ne field ":low" ":high" refl,
  eq_refl (field ++ ":low"),
)
metadata_priority_levels field high j h = ground (
  arith,
  append-ne-empty field ":high" h,
  eq_iff field "",
  append-ne field ":high" ":urgent" refl,
  eq_refl (field ++ ":high"),
)
metadata_priority_levels field urgent j h =
    ground (arith, append-ne-empty field ":urgent" h, eq_iff field "", eq_refl (field ++ ":urgent"))
