-- ===== src/JobQueue/Remove.antt =====
-- RemoveJob.
use livekit_agent_sdk_go.Prelude.{
  ℕ, suc, ◌+◌, ◌<◌, ◌≡◌, ◌≢◌, inl, inr, refl, String, Bool, true, false, none, some, List, [], ◌∷◌,
  arith, length, Bool-cases, Option-cases, All, str_eq, eq_iff,
}
use livekit_agent_sdk_go.Prelude.Exec.{Returns, returns, Returns-bind}
use livekit_agent_sdk_go.Prelude.Arrays.{get_or}
use livekit_agent_sdk_go.JobQueue.Item.{JobQueueItem}
use livekit_agent_sdk_go.JobQueue.Order.{item_at, entry-item_at}
use livekit_agent_sdk_go.JobQueue.Ops.{heap_remove-Out}
use livekit_agent_sdk_go.JobQueue.{JobQueue, remove_job, find_job}
use livekit_agent_sdk_go.JobQueue.Validity.{IsValid, Taken, Out-Taken}

abbrev pub Removed : String → JobQueue → JobQueue × Bool → Type 0
Removed id q (r, false) = (r ≡ q) × All (λ x. x.job.id ≢ id) q.items
Removed id q (r, true) = (x : JobQueueItem) × (x.job.id ≡ id) × Taken q x r

find_job-none :
    (id : String) (a : List JobQueueItem) (i : ℕ)
    → find_job id a i ≡ none
    → All (λ x. x.job.id ≢ id) a
unfolding find_job
find_job-none id [] i h = tt
find_job-none id (x ∷ a) i h = ground (arith, eq_iff x.job.id id, find_job-none id a (suc i))

find_job-some :
    (id : String) (a : List JobQueueItem) (i j : ℕ)
    → find_job id a i ≡ some j
    → (k : ℕ) × (j ≡ i + k) × (k < length a) × ((item_at a k).job.id ≡ id)
unfolding find_job get_or
find_job-some id [] i j h = cc
find_job-some id (x ∷ a) i j h = elim (Bool-cases (str_eq x.job.id id)) [
  | inl e ↦ (0, ground arith, omega arith, (eq_iff x.job.id id).0 e)
  | inr e ↦
      let (k, at, inside, hit) = find_job-some id a (suc i) j (ground arith) in
      (suc k, omega arith, omega arith, hit)
]

-- RemoveJob ends without a panic. It answers true exactly if a job of the queue has the id; then it
-- takes out one such job, keeps all others and the order of the heap. Otherwise nothing changes.
pub remove_job_correct :
    (id : String) (q : JobQueue) → IsValid q → Returns (Removed id q) (remove_job id q)
unfolding remove_job
remove_job_correct id q v = elim (Option-cases (find_job id q.items 0)) [
  | inl e ↦ rw (e, remove_job) (returns (refl, find_job-none id q.items 0 e))
  | inr (i, e) ↦
      let (k, at, inside, hit) = find_job-some id q.items 0 i e in
      let here : i ≡ k = omega arith in
      rw (e, remove_job)
        (Returns-bind (heap_remove-Out q.items i v.heap (omega arith)) λ r o.
          returns (r.0, ground (arith, o.entry, entry-item_at q.items i, hit), Out-Taken q i r v o))
]
