-- ===== src/JobQueue/Validity.antt =====
-- What is always true of the job queue, and what leaves it.
use mathlib.Core.List.{Perm, Mem, not-mem-nil}
use mathlib.Core.List.{forall_mem-cons}
use mathlib.Core.HLevel.{×_prop}
use native.Mathlib.Bridge.{le_prop}
use native.Mathlib.Nat.{ℕ_set}
use livekit_agent_sdk_go.Prelude.Int.{negsuc}
use livekit_agent_sdk_go.Prelude.{
  ℕ, zero, suc, ◌≤◌, ◌<◌, ◌≡◌, inl, inr, refl, ap, List, [], ◌∷◌, arith, length,
}
use livekit_agent_sdk_go.Prelude.Exec.{Returns, returns}
use livekit_agent_sdk_go.Prelude.Arrays.{get_or}
use livekit_agent_sdk_go.JobQueue.Item.{JobQueueItem, Entry}
use livekit_agent_sdk_go.JobQueue.Heap.{parent, heap_init}
use livekit_agent_sdk_go.JobQueue.Order.{
  entries, entry_at, NotAfter, NotAfter-trans, NotAfter-refl, IsHeap, IsIndexed,
}
use livekit_agent_sdk_go.JobQueue.Ops.{Out}
use livekit_agent_sdk_go.JobQueue.{JobQueue, new_job_queue}

-- The items are a heap, know their positions, and keep to the limit if there is one.
pub record IsValid (q : JobQueue) : Type 0 where
  pub heap : IsHeap (entries q.items)
  pub indexed : IsIndexed q.items
  pub bounded : 0 < q.max_size → length q.items ≤ q.max_size

pub root_first_below :
    (k : ℕ) (e : List Entry) (i : ℕ)
    → IsHeap e
    → i < k
    → i < length e
    → NotAfter (entry_at e 0) (entry_at e i)
root_first_below zero e i h f p = absurd (omega arith)
root_first_below (suc k) e zero h f p = NotAfter-refl (entry_at e 0)
root_first_below (suc k) e (suc i) h f p =
    NotAfter-trans (entry_at e 0) (entry_at e (parent (suc i))) (entry_at e (suc i))
      (root_first_below k e (parent (suc i)) h (omega arith) (omega arith))
      (h (suc i) (omega arith) p (omega arith))

NotAfter-prop : (x y : Entry) → IsProp (NotAfter x y)
NotAfter-prop x y (inl p) (inl q) = ap inl (le_prop p q)
NotAfter-prop x y (inl p) (inr q) = absurd (omega arith)
NotAfter-prop x y (inr p) (inl q) = absurd (omega arith)
NotAfter-prop x y (inr p) (inr q) = ap inr (×_prop (ℕ_set _ _) le_prop p q)

-- x may come out before each of the entries.
abbrev pub IsFirst : Entry → List Entry → Type 0
IsFirst x e = (y : Entry) → Mem y e → NotAfter x y

pub IsFirst-of_positions :
    (x : Entry) (e : List Entry)
    → ((i : ℕ) → i < length e → NotAfter x (entry_at e i))
    → IsFirst x e
unfolding get_or
IsFirst-of_positions x [] h = λ y m. absurd (not-mem-nil m)
IsFirst-of_positions x (z ∷ e) h =
    (forall_mem-cons λ y. NotAfter-prop x y).1
      (h 0 (omega arith), IsFirst-of_positions x e (λ i p. h (suc i) (omega arith)))

-- An item that left the queue r.0 for the queue r.1.
pub record Taken (q : JobQueue) (x : JobQueueItem) (r : JobQueue) : Type 0 where
  pub valid : IsValid r
  pub same : Perm (x.entry ∷ entries r.items) (entries q.items)
  pub index : x.index ≡ negsuc 0
  pub kept : (r.max_size ≡ q.max_size) × (r.signal ≡ q.signal) × (r.closed ≡ q.closed)

pub Out-Taken :
    (q : JobQueue) (i : ℕ) (r : JobQueueItem × List JobQueueItem)
    → IsValid q
    → Out q.items i r
    → Taken q r.0 (record q { items = r.1 })
Out-Taken q i r v o = record {
  valid = record {
    heap = o.heap;
    indexed = o.indexed v.indexed;
    bounded = λ p. omega (arith, v.bounded p, o.size);
  };
  same = o.same;
  index = o.index;
  kept = (refl, refl, refl);
}

-- A new queue is valid and empty.
pub new_job_queue_correct :
    (max_size : ℕ)
    → Returns (λ q. IsValid q × (q.items ≡ []) × (q.max_size ≡ max_size)) (new_job_queue max_size)
unfolding new_job_queue heap_init
new_job_queue_correct max_size = returns (
  record {
    heap = λ c p q r. absurd (omega arith);
    indexed = λ c p. absurd (omega arith);
    bounded = λ p. omega arith;
  },
  refl,
  refl,
)
