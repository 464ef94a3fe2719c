-- ===== src/RaceProtector/Status.antt =====
-- Status updates that wait for the reconnection.
use Prim.Native.Nat.{max}
use livekit_agent_sdk_go.Prelude.{
  ℕ, suc, ◌≡◌, refl, ap, inl, inr, Bool-cases, String, true, Option, none, some, List, [], ◌∷◌,
  arith, str_eq, eq_iff, eq_refl, if◌then◌else◌, length, All, nil_of_length, sym,
}
use livekit_agent_sdk_go.Prelude.Dict.{Dict, lookup, Unique, lookup-insert}
use livekit_agent_sdk_go.RaceProtector.{
  RaceProtector, JobStatus, StatusUpdate, queue_status_update, flush_pending_status_updates,
  store_update, merge_update, status_priority, should_replace_status, updates_of, fresh_update,
}
use livekit_agent_sdk_go.RaceProtector.Validity.{IsValid}
use mathlib.Core.List.{Memᴰ}
use mathlib.Core.Path.{subst}

pub record Request : Type 0 where
  pub job : String
  pub status : JobStatus
  pub message : String
  pub at : ℕ

unfoldable pub queue_all : List Request → RaceProtector → RaceProtector
queue_all [] p = p
queue_all (r ∷ rs) p = queue_all rs (queue_status_update r.job r.status r.message r.at p).0

-- The priority of what waits for a job.
unfoldable pub waiting : String → RaceProtector → ℕ
waiting id p = elim (lookup id p.pending_status_updates) [
  | none ↦ 0
  | some u ↦ status_priority u.status
]

-- The highest priority among the statuses that are reported for a job.
unfoldable pub highest : String → List Request → ℕ
highest id [] = 0
highest id (r ∷ rs) =
    let rest = highest id rs in
    if str_eq r.job id then max (status_priority r.status) rest else rest

reconnecting-queue :
    (id : String) (s : JobStatus) (message : String) (now : ℕ) (p : RaceProtector)
    → (queue_status_update id s message now p).0.is_reconnecting ≡ p.is_reconnecting
unfolding queue_status_update store_update
reconnecting-queue id s message now p = ground arith

waiting-store_update :
    (id j : String) (s : JobStatus) (message : String) (now : ℕ) (p : RaceProtector)
    (o : Option StatusUpdate)
    → lookup j p.pending_status_updates ≡ o
    → waiting id (store_update j s message now o p)
      ≡ (if str_eq j id then max (waiting id p) (status_priority s) else waiting id p)
unfolding store_update waiting merge_update should_replace_status
waiting-store_update id j s message now p none e =
    ground (
      arith,
      eq_iff j id,
      lookup-insert j id (fresh_update j s message now) p.pending_status_updates,
    )
waiting-store_update id j s message now p (some u) e =
    ground (
      arith,
      eq_iff j id,
      lookup-insert j id (merge_update s message now u) p.pending_status_updates,
    )

-- While the worker reconnects, the status that waits for a job has the highest priority among the
-- one that waited before and all that are reported for that job, whatever is reported for others:
-- nothing lower replaces it, so a failure is never lost behind a success or a running job.
pub queue_keeps_highest :
    (id : String) (rs : List Request) (p : RaceProtector)
    → p.is_reconnecting ≡ true
    → waiting id (queue_all rs p) ≡ max (waiting id p) (highest id rs)
unfolding queue_all highest queue_status_update
queue_keeps_highest id [] p h = omega arith
queue_keeps_highest id (r ∷ rs) p h = ground (
  arith,
  reconnecting-queue r.job r.status r.message r.at p,
  waiting-store_update id r.job r.status r.message r.at p _ refl,
  queue_keeps_highest id rs (queue_status_update r.job r.status r.message r.at p).0,
)

lookup_below :
    (k id : String) (w u : StatusUpdate) (m : Dict StatusUpdate)
    → lookup k m ≡ none
    → lookup id m ≡ some u
    → lookup id ((k, w) ∷ m) ≡ some u
unfolding lookup
lookup_below k id w u m e h = ground (arith, eq_iff k id)

lookup_top :
    (k : String) (u : StatusUpdate) (m : Dict StatusUpdate) → lookup k ((k, u) ∷ m) ≡ some u
unfolding lookup
lookup_top k u m = ground (arith, eq_refl k)

-- Each update of the list is the one that the map holds for its job.
updates_of-lookup :
    (m : Dict StatusUpdate) (n : Dict StatusUpdate)
    → Unique m
    → ((id : String) (u : StatusUpdate) → lookup id m ≡ some u → lookup id n ≡ some u)
    → ((id : String) (u : StatusUpdate) → lookup id m ≡ some u → u.job_id ≡ id)
    → All (λ u. lookup u.job_id n ≡ some u) (updates_of m)
updates_of-lookup [] n u sub filed = tt
updates_of-lookup ((k, u) ∷ m) n un sub filed = (
  subst (λ j. lookup j n ≡ some u) (sym (filed k u (lookup_top k u m)))
      (sub k u (lookup_top k u m)),
  updates_of-lookup m n un.1 (λ id w h. sub id w (lookup_below k id u w m un.0 h))
      (λ id w h. filed id w (lookup_below k id u w m un.0 h)),
)

updates_of-mem :
    (id : String) (u : StatusUpdate) (m : Dict StatusUpdate)
    → lookup id m ≡ some u
    → Memᴰ u (updates_of m)
unfolding lookup
updates_of-mem id u [] h = cc
updates_of-mem id u ((k, w) ∷ m) h = elim (Bool-cases (str_eq k id)) [
  | inl e ↦ Memᴰ.head (ground arith)
  | inr e ↦ Memᴰ.tail (updates_of-mem id u m (ground arith))
]

length-updates_of : (m : Dict StatusUpdate) → length (updates_of m) ≡ length m
length-updates_of [] = refl
length-updates_of ((k, u) ∷ m) = ap suc (length-updates_of m)

flush-list :
    (p : RaceProtector) → (flush_pending_status_updates p).1 ≡ updates_of p.pending_status_updates
unfolding flush_pending_status_updates
flush-list p = ground (arith, nil_of_length p.pending_status_updates)

nothing_waits :
    (p : RaceProtector) (id : String)
    → lookup id (flush_pending_status_updates p).0.pending_status_updates ≡ none
unfolding flush_pending_status_updates lookup
nothing_waits p id = ground (arith, nil_of_length p.pending_status_updates)

-- A flush hands over what waits: every pending update, each the one that is filed for its job, as
-- many as there are jobs that wait; afterwards no update waits for any job.
pub flush_delivers :
    (p : RaceProtector)
    → IsValid p
    → ((id : String) (u : StatusUpdate)
        → lookup id p.pending_status_updates ≡ some u
        → Memᴰ u (flush_pending_status_updates p).1)
      × All
          (λ u. lookup u.job_id p.pending_status_updates ≡ some u)
          (flush_pending_status_updates p).1
      × (length (flush_pending_status_updates p).1 ≡ length p.pending_status_updates)
      × ((id : String) → lookup id (flush_pending_status_updates p).0.pending_status_updates ≡ none)
flush_delivers p v = rw (flush-list p) (
  (λ id u h. updates_of-mem id u _ h),
  updates_of-lookup _ _ v.updates.unique (λ id u h. h) v.updates.filed,
  length-updates_of _,
  nothing_waits p,
)
