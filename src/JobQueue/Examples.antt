-- ===== src/JobQueue/Examples.antt =====
-- Concrete runs of the job queue.
use mathlib.Core.List.{Perm}
use livekit_agent_sdk_go.Prelude.{
  none, ℕ, zero, suc, ◌≡◌, inl, refl, String, true, false, [], ◌∷◌, arith,
}
use livekit_agent_sdk_go.Prelude.Exec.{ok, Returns}
use livekit_agent_sdk_go.Prelude.Int.{pos}
use livekit_agent_sdk_go.JobQueue.Item.{Job, JobQueueItem, jt_room, push}
use livekit_agent_sdk_go.JobQueue.Order.{entries, IsHeap, IsIndexed}
use livekit_agent_sdk_go.JobQueue.Heap.{heap_push, up}
use livekit_agent_sdk_go.JobQueue.Validity.{IsValid}
use livekit_agent_sdk_go.JobQueue.Enqueue.{Enqueued, entry_of, enqueue_correct}
use livekit_agent_sdk_go.JobQueue.Dequeue.{Dequeued, dequeue_correct}
use livekit_agent_sdk_go.JobQueue.Drain.{drain, IsOrdered, drain-IsOrdered}
use livekit_agent_sdk_go.JobQueue.Remove.{Removed, remove_job_correct}
use livekit_agent_sdk_go.JobQueue.Wait.{
  enqueues, calls, Delivers, single_waiter_wakes, closed_spins,
}
use livekit_agent_sdk_go.JobQueue.{
  JobQueue, others, waiting, enqueue, dequeue, remove_job, wait_turns,
}
use livekit_agent_sdk_go.Prelude.Arrays.{get_or}

abbrev a_job : String → Job
a_job id = record {
  id = id;
  metadata = "";
  job_type = jt_room;
  room_name = none;
  participant_identity = none;
}

abbrev an_item : String → ℕ → ℕ → ℕ → JobQueueItem
an_item id priority now i = record {
  entry = entry_of (a_job id) priority "token" "url" now;
  index = pos i;
}

abbrev two_jobs : JobQueue
two_jobs = record {
  items = an_item "b" 3 8 0 ∷ an_item "a" 1 5 1 ∷ [];
  max_size = 3;
  signal = true;
  closed = false;
}

two_jobs-IsHeap : IsHeap (entries two_jobs.items)
unfolding get_or
two_jobs-IsHeap zero p q r = absurd (omega arith)
two_jobs-IsHeap (suc zero) p q r = inl (omega arith)
two_jobs-IsHeap (suc (suc c)) p q r = absurd (omega arith)

two_jobs-IsIndexed : IsIndexed two_jobs.items
unfolding get_or
two_jobs-IsIndexed zero p = refl
two_jobs-IsIndexed (suc zero) p = refl
two_jobs-IsIndexed (suc (suc c)) p = absurd (omega arith)

two_jobs-IsValid : IsValid two_jobs
two_jobs-IsValid = record {
  heap = two_jobs-IsHeap;
  indexed = two_jobs-IsIndexed;
  bounded = omega arith;
}

abbrev no_jobs : JobQueue
no_jobs = record { items = []; max_size = 0; signal = false; closed = false }

no_jobs-IsValid : IsValid no_jobs
no_jobs-IsValid = record {
  heap = λ c p q r. absurd (omega arith);
  indexed = λ c p. absurd (omega arith);
  bounded = omega arith;
}

enqueue_correct_example :
    Returns
      (Enqueued two_jobs (entry_of (a_job "c") 2 "t" "u" 9))
      (enqueue (a_job "c") 2 "t" "u" 9 two_jobs)
enqueue_correct_example = enqueue_correct (a_job "c") 2 "t" "u" 9 two_jobs two_jobs-IsValid

dequeue_correct_example : Returns (Dequeued two_jobs) (dequeue two_jobs)
dequeue_correct_example = dequeue_correct two_jobs two_jobs-IsValid

drain-IsOrdered_example :
    Returns (λ es. IsOrdered es × Perm es (entries two_jobs.items)) (drain 3 two_jobs)
drain-IsOrdered_example = drain-IsOrdered 3 two_jobs (omega arith) two_jobs-IsValid

remove_job_correct_example : Returns (Removed "a" two_jobs) (remove_job "a" two_jobs)
remove_job_correct_example = remove_job_correct "a" two_jobs two_jobs-IsValid

-- The queue that an Enqueue leaves.
abbrev one_job : JobQueue
one_job = record { items = an_item "a" 1 5 0 ∷ []; max_size = 0; signal = true; closed = false }

enqueued_one : calls (enqueues (a_job "a") 1 "token" "url" 5 ∷ []) no_jobs ≡ ok one_job
unfolding calls enqueue heap_push push up
enqueued_one = refl

single_waiter_wakes_example :
    Returns
      (Delivers (record one_job { signal = false }))
      (wait_turns 0 (others (λ _. one_job) ∷ []) no_jobs)
single_waiter_wakes_example =
    single_waiter_wakes 0 (enqueues (a_job "a") 1 "token" "url" 5 ∷ []) [] no_jobs one_job
      no_jobs-IsValid refl enqueued_one (omega arith)

abbrev closed_queue : JobQueue
closed_queue = record no_jobs { closed = true }

closed_spins_example :
    Returns
      (λ r. r.1 ≡ waiting 2)
      (wait_turns 0 (others (λ q. q) ∷ others (λ q. q) ∷ []) closed_queue)
closed_spins_example =
    closed_spins 0 (others (λ q. q) ∷ others (λ q. q) ∷ []) closed_queue refl refl
      ((λ q c e. (c, e)), ((λ q c e. (c, e)), tt))
