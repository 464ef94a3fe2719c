-- ===== src/JobQueue/Heap.antt =====
-- Go's container/heap, as the job queue uses it: Init, Push, Pop, Remove, and the loops up and down.
-- A position is below twice the length plus two, so `int` does not overflow, and the test `j1 < 0`
-- of the loop never holds. Each loop runs on fuel: up climbs at most i levels, down at most n.
use livekit_agent_sdk_go.Prelude.{
  ℕ, zero, suc, ◌+◌, ◌-◌, ◌*◌, ◌/◌, Bool, List, ltb, leb, ◌==◌, if◌then◌else◌, length,
}
use livekit_agent_sdk_go.Prelude.Exec.{Exec, ok, out_of_fuel, ◌>>=◌}
use livekit_agent_sdk_go.JobQueue.Item.{JobQueueItem, Entry, less, swap, push, pop}

abbrev pub parent : ℕ → ℕ
parent j = (j - 1) / 2

-- for { i := (j-1)/2; if i == j || !h.Less(j, i) { break }; h.Swap(i, j); j = i }
unfoldable pub up_loop : ℕ → List JobQueueItem → ℕ → Exec (List JobQueueItem)
up_loop zero a j = out_of_fuel
up_loop (suc k) a j =
    let rise = swap a (parent j) j >>= λ b. up_loop k b (parent j) in
    let step = less a j (parent j) >>= λ below. if below then rise else ok a in
    if parent j == j then ok a else step

unfoldable pub up : List JobQueueItem → ℕ → Exec (List JobQueueItem)
unfolding up_loop
up a j = up_loop (j + 1) a j

-- j := j1; if j2 := j1 + 1; j2 < n && h.Less(j2, j1) { j = j2 }
unfoldable pub first_child : ℕ → List JobQueueItem → ℕ → Exec ℕ
first_child n a i =
    let j1 = 2 * i + 1 in
    let j2 = j1 + 1 in
    if ltb j2 n then (do right ← less a j2 j1; ok (if right then j2 else j1)) else ok j1

-- The loop of down, which ends with the position that the entry sank to.
unfoldable pub down_loop : ℕ → ℕ → List JobQueueItem → ℕ → Exec (List JobQueueItem × ℕ)
unfolding first_child
down_loop zero n a i = out_of_fuel
down_loop (suc k) n a i =
    let step : Exec (List JobQueueItem × ℕ) = do
      j ← first_child n a i
      below ← less a j i
      let sink = swap a i j >>= λ b. down_loop k n b j
      if below then sink else ok (a, i)
    in if leb n (2 * i + 1) then ok (a, i) else step

-- The new list, and whether the entry moved.
unfoldable pub down : List JobQueueItem → ℕ → ℕ → Exec (List JobQueueItem × Bool)
unfolding down_loop
down a i0 n = do (b, i) ← down_loop (n + 1) n a i0; ok (b, ltb i0 i)

unfoldable pub init_loop : ℕ → ℕ → List JobQueueItem → Exec (List JobQueueItem)
init_loop zero n a = ok a
init_loop (suc i) n a = down a i n >>= λ r. init_loop i n r.0

unfoldable pub heap_init : List JobQueueItem → Exec (List JobQueueItem)
unfolding init_loop
heap_init a = init_loop (length a / 2) (length a) a

unfoldable pub heap_push : List JobQueueItem → Entry → Exec (List JobQueueItem)
heap_push a e = let b = push a e in up b (length b - 1)

unfoldable pub heap_pop : List JobQueueItem → Exec (JobQueueItem × List JobQueueItem)
heap_pop a = do let n = length a - 1; b ← swap a 0 n; (c, moved) ← down b 0 n; pop c

-- if n != i { h.Swap(i, n); if !down(h, i, n) { up(h, i) } }
unfoldable pub sift_out : List JobQueueItem → ℕ → ℕ → Exec (List JobQueueItem)
sift_out a i n = do b ← swap a i n; (c, moved) ← down b i n; if moved then ok c else up c i

unfoldable pub heap_remove : List JobQueueItem → ℕ → Exec (JobQueueItem × List JobQueueItem)
unfolding sift_out
heap_remove a i = do let n = length a - 1; b ← if n == i then ok a else sift_out a i n; pop b
