-- ===== src/JobQueue/Drain.antt =====
-- The order in which jobs come out of the queue.
use mathlib.Core.List.{Perm, Pairwise, mem-cons_of_mem}
use mathlib.Core.List.Perm
use livekit_agent_sdk_go.Prelude.{
  ℕ, zero, suc, ◌<◌, Option, none, some, List, [], ◌∷◌, arith, length,
}
use livekit_agent_sdk_go.Prelude.Exec.{Exec, ok, out_of_fuel, ◌>>=◌, Returns, returns, Returns-bind}
use livekit_agent_sdk_go.Prelude.Arrays.{length-perm}
use livekit_agent_sdk_go.JobQueue.Item.{JobQueueItem, Entry}
use livekit_agent_sdk_go.JobQueue.Order.{entries, NotAfter, length-entries}
use livekit_agent_sdk_go.JobQueue.Validity.{IsValid}
use livekit_agent_sdk_go.JobQueue.Dequeue.{Dequeued, dequeue_correct}
use livekit_agent_sdk_go.JobQueue.{JobQueue, dequeue}

-- Dequeue until nothing is left; k bounds the number of calls.
unfoldable pub drain : ℕ → JobQueue → Exec (List Entry)
drain zero q = out_of_fuel
drain (suc k) q = dequeue q >>= λ r. elim (r.1) [
  | none ↦ ok []
  | some x ↦ drain k r.0 >>= λ rest. ok (x.entry ∷ rest)
]

-- No entry may come out after a later one of the list.
abbrev pub IsOrdered : List Entry → Type 0
IsOrdered = Pairwise NotAfter

abbrev Drained : JobQueue → List Entry → Type 0
Drained q es = IsOrdered es × Perm es (entries q.items)

drain-after :
    (k : ℕ) (q : JobQueue)
    → length q.items < suc k
    → ((r : JobQueue) → length r.items < k → IsValid r → Returns (Drained r) (drain k r))
    → (r : JobQueue × Option JobQueueItem) → Dequeued q r
    → Returns
        (Drained q)
        (elim (r.1) [ none ↦ ok [] | some x ↦ drain k r.0 >>= λ rest. ok (x.entry ∷ rest) ])
drain-after k q f ih (r, none) (e, _) = returns (Pairwise.nil, rw e Perm.nil)
drain-after k q f ih (r, some x) (t, first) =
    let fewer = length-perm t.same in
    Returns-bind
      (ih r (omega (arith, fewer, length-entries r.items, length-entries q.items)) t.valid)
      λ es (ordered, perm).
        let same = Perm.trans (Perm.cons x.entry perm) t.same in
        returns (
          Pairwise.cons (λ y m. first y ((Perm.mem_iff same).0 (mem-cons_of_mem x.entry m)))
              ordered,
          same,
        )

-- Called again and again on a valid queue, Dequeue hands out every job of the queue once, those of
-- a higher priority first, and among those of one priority the older first.
pub drain-IsOrdered :
    (k : ℕ) (q : JobQueue)
    → length q.items < k
    → IsValid q
    → Returns (λ es. IsOrdered es × Perm es (entries q.items)) (drain k q)
unfolding drain
drain-IsOrdered zero q f v = absurd (omega arith)
drain-IsOrdered (suc k) q f v =
    Returns-bind (dequeue_correct q v) (drain-after k q f (λ r g w. drain-IsOrdered k r g w))
