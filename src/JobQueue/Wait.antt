-- ===== src/JobQueue/Wait.antt =====
-- DequeueWithContext: the signals of `waitChan`, and when the call returns.
use livekit_agent_sdk_go.Prelude.{
  ℕ, suc, ◌+◌, ◌<◌, ◌≡◌, refl, if_cases, ap, ◌∙◌, String, Bool, true, false, Option, none, some,
  List, [], ◌∷◌, arith, length, All,
}
use livekit_agent_sdk_go.Prelude.Exec.{
  Exec, ok, Returns, returns, Returns-bind, Returns-map, Returns→Ends, Ends, ends, panics,
  Ends-bind, Ends-value, ◌>>=◌,
}
use livekit_agent_sdk_go.Prelude.Arrays.{length-perm}
use livekit_agent_sdk_go.JobQueue.Item.{Job, JobQueueItem, Entry}
use livekit_agent_sdk_go.JobQueue.Order.{entries, length-entries}
use livekit_agent_sdk_go.JobQueue.Validity.{IsValid, IsFirst, Taken}
use livekit_agent_sdk_go.JobQueue.Enqueue.{Enqueued, enqueue_correct}
use livekit_agent_sdk_go.JobQueue.Dequeue.{Dequeued, dequeue_correct}
use livekit_agent_sdk_go.JobQueue.Remove.{Removed, remove_job_correct}
use livekit_agent_sdk_go.JobQueue.{
  JobQueue, EnqueueError, Turn, cancelled, others, Answer, job, waiting, is_ready, wait_turns,
  enqueue, dequeue, remove_job, clear, close,
}

-- A call of a method by another goroutine. The last argument of an Enqueue is the time.
pub data Method : Type 0 where
  enqueues : Job → ℕ → String → String → ℕ → Method
  dequeues : Method
  removes : String → Method
  clears : Method
  closes : Method

unfoldable pub call : Method → JobQueue → Exec JobQueue
call (enqueues j priority token url now) q = enqueue j priority token url now q >>= λ r. ok r.0
call dequeues q = dequeue q >>= λ r. ok r.0
call (removes id) q = remove_job id q >>= λ r. ok r.0
call clears q = ok (clear q)
call closes q = close q

unfoldable pub calls : List Method → JobQueue → Exec JobQueue
unfolding call
calls [] q = ok q
calls (m ∷ ms) q = call m q >>= calls ms

-- The queue is valid, and if it holds a job its channel holds a signal.
abbrev pub IsAlert : JobQueue → Type 0
IsAlert q = IsValid q × (0 < length q.items → q.signal ≡ true)

enqueue-IsAlert :
    (e : Entry) (q : JobQueue) (r : JobQueue × Option EnqueueError)
    → IsAlert q
    → Enqueued q e r
    → IsAlert r.0
enqueue-IsAlert e q (r, none) a v = (v.1, λ h. v.3)
enqueue-IsAlert e q (r, some EnqueueError.queue_closed) a v = rw v.1 a
enqueue-IsAlert e q (r, some (EnqueueError.queue_full n)) a v = rw v.4 a

Taken-IsAlert : (q r : JobQueue) (x : JobQueueItem) → IsAlert q → Taken q x r → IsAlert r
Taken-IsAlert q r x a t =
    (t.valid, λ h. t.kept.1 ∙ a.1 (omega (arith, length-perm t.same, length-entries q.items)))

dequeue-IsAlert :
    (q : JobQueue) (r : JobQueue × Option JobQueueItem) → IsAlert q → Dequeued q r → IsAlert r.0
dequeue-IsAlert q (r, none) a v = rw v.1 a
dequeue-IsAlert q (r, some x) a v = Taken-IsAlert q r x a v.0

remove-IsAlert :
    (id : String) (q : JobQueue) (r : JobQueue × Bool) → IsAlert q → Removed id q r → IsAlert r.0
remove-IsAlert id q (r, false) a v = rw v.0 a
remove-IsAlert id q (r, true) a v = Taken-IsAlert q r v.0 a v.2

call-IsAlert : (m : Method) (q : JobQueue) → IsAlert q → Ends IsAlert (call m q)
unfolding call clear close
call-IsAlert (enqueues j priority token url now) q a =
    Ends-bind (Returns→Ends (enqueue_correct j priority token url now q a.0))
      λ r e. ends (enqueue-IsAlert _ q r a e)
call-IsAlert dequeues q a =
    Ends-bind (Returns→Ends (dequeue_correct q a.0)) λ r e. ends (dequeue-IsAlert q r a e)
call-IsAlert (removes id) q a =
    Ends-bind (Returns→Ends (remove_job_correct id q a.0)) λ r e. ends (remove-IsAlert id q r a e)
call-IsAlert clears q a = ends (
  record {
    heap = λ c p s t. absurd (omega arith);
    indexed = λ c p. absurd (omega arith);
    bounded = λ p. omega arith;
  },
  λ h. absurd (omega arith),
)
call-IsAlert closes q a =
    if_cases (Ends IsAlert) q.closed panics
      (ends (record { heap = a.0.heap; indexed = a.0.indexed; bounded = a.0.bounded }, a.1))

calls-IsAlert : (ms : List Method) (q : JobQueue) → IsAlert q → Ends IsAlert (calls ms q)
unfolding calls
calls-IsAlert [] q a = ends a
calls-IsAlert (m ∷ ms) q a = Ends-bind (call-IsAlert m q a) (λ r b. calls-IsAlert ms r b)

woken-calls :
    (rounds : ℕ) (f : JobQueue → JobQueue) (ts : List Turn) (q : JobQueue)
    → is_ready (f q) ≡ true
    → wait_turns rounds (others f ∷ ts) q ≡ (
        dequeue (record (f q) { signal = false }) >>= λ r. elim (r.1) [
          | some x ↦ ok (r.0, job x)
          | none ↦ wait_turns (suc rounds) ts r.0
        ])
unfolding wait_turns
woken-calls rounds f ts q h = ground arith

-- The call returns a job that may come out first, and takes it out of the queue.
abbrev pub Delivers : JobQueue → JobQueue × Answer → Type 0
Delivers q (r, a) =
    (x : JobQueueItem) × (a ≡ job x) × Taken q x r × IsFirst x.entry (entries q.items)

Delivers-after :
    (rounds : ℕ) (ts : List Turn) (q : JobQueue) (r : JobQueue × Option JobQueueItem)
    → 0 < length q.items
    → Dequeued q r
    → Returns
        (Delivers q)
        (elim (r.1) [ some x ↦ ok (r.0, job x) | none ↦ wait_turns rounds ts r.0 ])
Delivers-after rounds ts q (r, none) h (e, _) = absurd (omega (arith, ap length e))
Delivers-after rounds ts q (r, some x) h (t, first) = returns (x, refl, t, first)

-- A call of DequeueWithContext that waits alone on a valid, empty queue misses no signal: whatever calls
-- of Enqueue, Dequeue, RemoveJob, Clear and Close others make meanwhile, if none of them panics (a second
-- Close does) and a job is in the queue afterwards, the call returns one that may come first and takes
-- it out.
pub single_waiter_wakes :
    (rounds : ℕ) (ms : List Method) (ts : List Turn) (q r : JobQueue)
    → IsValid q
    → q.items ≡ []
    → calls ms q ≡ ok r
    → 0 < length r.items
    → Returns (Delivers (record r { signal = false })) (wait_turns rounds (others (λ _. r) ∷ ts) q)
single_waiter_wakes rounds ms ts q r v e run h =
    let alert : IsAlert r =
      Ends-value (calls-IsAlert ms q (v, λ h. absurd (omega (arith, ap length e)))) run in
    let idle : JobQueue = record r { signal = false } in
    let fine : IsValid idle = record {
      heap = alert.0.heap;
      indexed = alert.0.indexed;
      bounded = alert.0.bounded;
    } in
    rw (woken-calls rounds (λ _. r) ts q (ground (arith, alert.1 h)))
      (Returns-bind (dequeue_correct idle fine) (λ s d. Delivers-after (suc rounds) ts idle s h d))

-- The turn leaves a closed and empty queue as it is, and does not cancel the context.
abbrev pub NoHelp : Turn → Type 0
NoHelp cancelled = ⊥
NoHelp (others f) =
    (q : JobQueue) → q.closed ≡ true → q.items ≡ [] → ((f q).closed ≡ true) × ((f q).items ≡ [])

-- On a closed and empty queue, as long as the context is not cancelled and others leave the queue
-- closed and empty, DequeueWithContext does not return: in every turn its receive from the closed
-- channel succeeds at once, finds no job, and the loop goes round.
pub closed_spins :
    (rounds : ℕ) (ts : List Turn) (q : JobQueue)
    → q.closed ≡ true
    → q.items ≡ []
    → All NoHelp ts
    → Returns (λ r. r.1 ≡ waiting (rounds + length ts)) (wait_turns rounds ts q)
unfolding wait_turns dequeue
closed_spins rounds [] q c e n = returns (ap waiting {x = rounds} (omega arith))
closed_spins rounds (cancelled ∷ ts) q c e n = absurd n.0
closed_spins rounds (others f ∷ ts) q c e n =
    let (c', e') = n.0 q c e in
    let ready : is_ready (f q) ≡ true = ground arith in
    rw (woken-calls rounds f ts q ready, e')
      (Returns-map
        (closed_spins (suc rounds) ts (record (f q) { items = []; signal = false }) c' refl n.1)
        (λ r h.
          h ∙ ap waiting {x = suc rounds + length ts} {y = rounds + suc (length ts)} (omega arith)))
