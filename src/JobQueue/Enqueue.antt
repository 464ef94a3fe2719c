-- ===== src/JobQueue/Enqueue.antt =====
-- Enqueue.
use mathlib.Core.List.{Perm}
use livekit_agent_sdk_go.Prelude.{
  ℕ, ◌<◌, ◌≡◌, refl, String, true, false, ◌&&◌, Option, none, some, List, ◌∷◌, arith, length, ltb,
  leb,
}
use livekit_agent_sdk_go.Prelude.Exec.{Returns, returns, Returns-bind, Returns-if}
use livekit_agent_sdk_go.Prelude.Arrays.{length-perm}
use livekit_agent_sdk_go.JobQueue.Item.{Job, JobQueueItem, Entry}
use livekit_agent_sdk_go.JobQueue.Order.{entries, IsHeap, IsIndexed, length-entries}
use livekit_agent_sdk_go.JobQueue.Ops.{heap_push-IsHeap}
use livekit_agent_sdk_go.JobQueue.{JobQueue, EnqueueError, queue_closed, queue_full, enqueue}
use livekit_agent_sdk_go.JobQueue.Validity.{IsValid}

abbrev pub Enqueued : JobQueue → Entry → JobQueue × Option EnqueueError → Type 0
Enqueued q e (r, some queue_closed) = (q.closed ≡ true) × (r ≡ q)
Enqueued q e (r, some (queue_full n)) =
    (q.closed ≡ false)
    × (0 < q.max_size)
    × (length q.items ≡ q.max_size)
    × (n ≡ q.max_size)
    × (r ≡ q)
Enqueued q e (r, none) =
    (q.closed ≡ false)
    × IsValid r
    × Perm (entries r.items) (e ∷ entries q.items)
    × (r.signal ≡ true)
    × (r.max_size ≡ q.max_size)
    × (r.closed ≡ false)

abbrev pub entry_of : Job → ℕ → String → String → ℕ → Entry
entry_of job priority token url now = record {
  job = job;
  priority = priority;
  enqueue_time = now;
  token = token;
  url = url;
}

added-IsValid :
    (q : JobQueue) (e : Entry) (b : List JobQueueItem)
    → IsValid q
    → (ltb 0 q.max_size && leb q.max_size (length q.items)) ≡ false
    → IsHeap (entries b)
    → Perm (entries b) (e ∷ entries q.items)
    → (IsIndexed q.items → IsIndexed b)
    → IsValid (record q { items = b; signal = true })
added-IsValid q e b v room heap same indexed = record {
  heap = heap;
  indexed = indexed v.indexed;
  bounded = λ p. ground (arith, length-perm same, length-entries b, length-entries q.items);
}

-- Enqueue ends without a panic. On a closed queue, and on one that is as long as its limit, it
-- returns the error and changes nothing; on any other it adds the job with its priority and the
-- time of the call, keeps all other jobs and the order of the heap, and leaves a signal.
pub enqueue_correct :
    (job : Job) (priority : ℕ) (token url : String) (now : ℕ) (q : JobQueue)
    → IsValid q
    → Returns
        (Enqueued q (entry_of job priority token url now))
        (enqueue job priority token url now q)
unfolding enqueue
enqueue_correct job priority token url now q v =
    Returns-if q.closed (λ c. returns (c, refl))
      (λ opened.
        Returns-if (ltb 0 q.max_size && leb q.max_size (length q.items))
          (λ full. returns (opened, ground arith, ground (arith, v.bounded), refl, refl))
          (λ room.
            Returns-bind (heap_push-IsHeap q.items (entry_of job priority token url now) v.heap)
              λ b s.
                returns (opened, added-IsValid q _ b v room s.0 s.1 s.2, s.1, refl, refl, opened)))
