-- ===== src/JobQueue/Dequeue.antt =====
-- Dequeue and Peek.
use livekit_agent_sdk_go.Prelude.{
  suc, ◌≡◌, refl, ap, ◌∙◌, Option, none, some, [], arith, ◌==◌, length, nil_of_length,
}
use livekit_agent_sdk_go.Prelude.Exec.{Returns, returns, Returns-bind, Returns-if}
use livekit_agent_sdk_go.JobQueue.Item.{JobQueueItem, Entry}
use livekit_agent_sdk_go.JobQueue.Order.{entries, load-ok, entry-item_at}
use livekit_agent_sdk_go.JobQueue.Ops.{heap_pop-Out}
use livekit_agent_sdk_go.JobQueue.{JobQueue, dequeue, peek}
use livekit_agent_sdk_go.JobQueue.Validity.{
  IsValid, IsFirst, IsFirst-of_positions, Taken, Out-Taken, root_first_below,
}

abbrev pub Dequeued : JobQueue → JobQueue × Option JobQueueItem → Type 0
Dequeued q (r, none) = (q.items ≡ []) × (r ≡ q)
Dequeued q (r, some x) = Taken q x r × IsFirst x.entry (entries q.items)

-- Dequeue ends without a panic. On an empty queue it returns nothing and changes nothing; otherwise
-- it takes out one job, such that no job of the queue has a higher priority, or the same one and is
-- older. All other jobs stay, the heap is in order again, and every item knows its position.
pub dequeue_correct : (q : JobQueue) → IsValid q → Returns (Dequeued q) (dequeue q)
unfolding dequeue
dequeue_correct q v =
    Returns-if (length q.items == 0) (λ e. returns (nil_of_length q.items (ground arith), refl))
      (λ some_left. Returns-bind (heap_pop-Out q.items v.heap (ground arith)) λ r o. returns (
        Out-Taken q 0 r v o,
        IsFirst-of_positions r.0.entry (entries q.items) (λ i p.
            rw o.entry (root_first_below (suc i) (entries q.items) i v.heap (omega arith) p)),
      ))

abbrev pub shown : Option JobQueueItem → Option Entry
shown none = none
shown (some x) = some x.entry

-- Peek ends without a panic, and shows the job that Dequeue takes out, or nothing where Dequeue
-- finds nothing.
pub peek-dequeue :
    (q : JobQueue)
    → IsValid q
    → Returns (λ o. Returns (λ r. shown r.1 ≡ shown o) (dequeue q)) (peek q)
unfolding peek dequeue
peek-dequeue q v =
    Returns-if (length q.items == 0) (λ e. returns (rw e (returns refl)))
      (λ some_left. rw (load-ok q.items 0 (ground arith)) (
        returns (
          rw some_left (
            Returns-bind (heap_pop-Out q.items v.heap (ground arith))
              λ r o. returns (ap some (o.entry ∙ entry-item_at q.items 0))))))
