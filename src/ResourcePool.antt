-- ===== src/ResourcePool.antt =====
-- pkg/agent/resource_pool.go: the pool of resources. A resource is the number that names it, and what
-- it and the factory answer is an argument. The methods of sync/atomic are steps of their own in Go;
-- here they are one step with the channel operation next to them. Acquire, createAsync and Close are
-- cut where they give up the mutex, and Acquire also after the test of the size.
pub mod Steps
pub mod Accounting
pub mod Capacity
mod Examples
use livekit_agent_sdk_go.Prelude.{
  ℕ, suc, zero, ◌+◌, ◌-◌, String, Bool, true, false, not, Option, none, some, List, [], ◌∷◌, ◌++◌,
  ltb, leb, if◌then◌else◌, length,
}
use livekit_agent_sdk_go.Prelude.Int.{ℤ, pos, negsuc, ◌+ℤ◌, ◌-ℤ◌, ltb_ℤ}
use livekit_agent_sdk_go.Prelude.Exec.{Exec, ok, panic}

-- `idle` is the content of the channel, whose capacity is max_size. The counters are int64; those that
-- only grow are numbers. Close sets `closed` first and closes the channel later.
pub record ResourcePool : Type 0 where
  pub idle : List ℕ
  pub min_size : ℕ
  pub max_size : ℕ
  pub closed : Bool
  pub channel_closed : Bool
  pub created : ℕ
  pub available : ℤ
  pub in_use : ℤ
  pub destroyed : ℕ

-- atomic.AddInt64(&n, 1) and atomic.AddInt64(&n, -1)
unfoldable pub inc : ℤ → ℤ
inc (pos n) = pos (n + 1)
inc (negsuc zero) = pos 0
inc (negsuc (suc n)) = negsuc n

unfoldable pub dec : ℤ → ℤ
dec (pos n) = if ltb 0 n then pos (n - 1) else negsuc 0
dec (negsuc n) = negsuc (n + 1)

unfoldable pub size : ResourcePool → ℤ
size p = p.available +ℤ p.in_use

-- What the factory and a resource answer; nil is none.
pub record Answers : Type 0 where
  pub validate_error : Option String
  pub close_error : Option String
  pub reset_error : Option String

-- How Acquire goes on after it has looked for an idle resource.
pub data Taken : Type 0 where
  pool_closed : Taken
  acquired : ℕ → Taken
  close_failed : String → Taken
  must_create : Taken
  nil_received : Taken

-- A resource that is not good is closed; an error of Close ends Acquire before it is counted.
unfoldable pub discard : Option String → ResourcePool → ResourcePool × Taken
discard none p = (record p { destroyed = p.destroyed + 1 }, must_create)
discard (some err) p = (p, close_failed err)

unfoldable pub use_idle :
    ℕ → Option String → Option String → Option String → ResourcePool → ResourcePool × Taken
unfolding discard inc
use_idle r (some invalid) reset close p = discard close p
use_idle r none (some failed) close p = discard close p
use_idle r none none close p = (record p { in_use = inc p.in_use }, acquired r)

-- The select of Acquire and what follows it. A channel that is closed and empty gives nil at once;
-- available is counted down, and then Close or Reset of nil panics.
unfoldable pub take_from : Answers → List ℕ → ResourcePool → ResourcePool × Taken
unfolding use_idle dec
take_from a [] p =
    if p.channel_closed
    then (record p { available = dec p.available }, nil_received)
    else (p, must_create)
take_from a (r ∷ rest) p =
    use_idle r a.validate_error a.reset_error a.close_error
      (record p { idle = rest; available = dec p.available })

unfoldable pub receive : Answers → ResourcePool → ResourcePool × Taken
unfolding take_from
receive a p = take_from a p.idle p

-- Acquire until it calls createNew, if nothing comes between its test and its select.
unfoldable pub take_idle : Answers → ResourcePool → ResourcePool × Taken
unfolding receive
take_idle a p = if p.closed then (p, pool_closed) else receive a p

-- The test of createNew.
unfoldable pub has_capacity : ResourcePool → Bool
unfolding size
has_capacity p = ltb_ℤ (size p) (pos p.max_size)

-- The rest of createNew, with the new resource or none where the factory gives an error.
unfoldable pub create_new : Option ℕ → ResourcePool → ResourcePool
unfolding inc
create_new none p = p
create_new (some r) p = record p { created = p.created + 1; in_use = inc p.in_use }

-- createNew, and the answer of Acquire.
unfoldable pub after_taking : Option ℕ → ResourcePool × Taken → Exec (ResourcePool × Option ℕ)
unfolding has_capacity create_new
after_taking new (q, pool_closed) = ok (q, none)
after_taking new (q, acquired r) = ok (q, some r)
after_taking new (q, close_failed err) = ok (q, none)
after_taking new (q, nil_received) = panic
after_taking new (q, must_create) =
    ok (if has_capacity q then (create_new new q, new) else (q, none))

-- A whole call of Acquire that nothing comes between.
unfoldable pub acquire : Answers → Option ℕ → ResourcePool → Exec (ResourcePool × Option ℕ)
unfolding take_idle after_taking
acquire a new p = after_taking new (take_idle a p)

-- The pool after Release of a resource that is not nil, and whether it starts createAsync.
unfoldable pub release : ℕ → Bool → ResourcePool → ResourcePool × Bool
unfolding size dec inc
release r healthy p =
    let q = record p { in_use = dec p.in_use } in
    let gone = record q { destroyed = q.destroyed + 1 } in
    if p.closed
    then (gone, false)
    else if not healthy
    then (gone, ltb_ℤ (size gone) (pos p.min_size))
    else if ltb (length p.idle) p.max_size
    then (record q { idle = p.idle ++ r ∷ []; available = inc p.available }, false)
    else (gone, false)

-- The select of createAsync: a send on a closed channel panics.
unfoldable pub send_new : ℕ → ResourcePool → Exec ResourcePool
unfolding inc
send_new r p =
    if p.channel_closed
    then panic
    else if ltb (length p.idle) p.max_size
    then ok
        (record p { idle = p.idle ++ r ∷ []; created = p.created + 1; available = inc p.available })
    else ok (record p { destroyed = p.destroyed + 1 })

-- createAsync with the new resource, or none where the factory gives an error, if nothing comes between
-- its test and its select.
unfoldable pub create_async : Option ℕ → ResourcePool → Exec ResourcePool
unfolding send_new
create_async none p = ok p
create_async (some r) p = if p.closed then ok p else send_new r p

-- The loop of cleanupIdle, for the number of resources to remove.
unfoldable pub remove_idle : ℕ → List ℕ → ResourcePool → ResourcePool
unfolding dec
remove_idle zero rs p = p
remove_idle (suc n) [] p = p
remove_idle (suc n) (r ∷ rs) p =
    remove_idle n rs
      (record p { idle = rs; available = dec p.available; destroyed = p.destroyed + 1 })

-- available - minSize, if that is positive.
unfoldable pub excess : ℤ → ℕ → ℕ
excess (pos n) least = n - least
excess (negsuc n) least = 0

unfoldable pub cleanup_idle : ResourcePool → ResourcePool
unfolding remove_idle excess
cleanup_idle p = remove_idle (excess p.available p.min_size) p.idle p

-- Close until it unlocks, and its close of the channel.
unfoldable pub begin_close : ResourcePool → ResourcePool
begin_close p = record p { closed = true }

unfoldable pub close_channel : ResourcePool → ResourcePool
close_channel p = record p { channel_closed = true }

-- A round of the loop of Close, with the answer of the resource's Close.
unfoldable pub drain_one : Option String → List ℕ → ResourcePool → ResourcePool
drain_one none rs p = record p { idle = rs; destroyed = p.destroyed + 1 }
drain_one (some err) rs p = record p { idle = rs }

-- The loop of Close over the channel, with the answer of each resource's Close; it ends at the first
-- error. An answer that is missing is nil.
unfoldable pub drain : List ℕ → List (Option String) → ResourcePool → ResourcePool × Option String
unfolding drain_one
drain [] answers p = (p, none)
drain (r ∷ rs) [] p = drain rs [] (drain_one none rs p)
drain (r ∷ rs) (none ∷ answers) p = drain rs answers (drain_one none rs p)
drain (r ∷ rs) (some err ∷ answers) p = (drain_one (some err) rs p, some err)

-- A whole call of Close that nothing comes between.
unfoldable pub close : List (Option String) → ResourcePool → ResourcePool × Option String
unfolding drain begin_close close_channel
close answers p =
    if p.closed then (p, none) else drain p.idle answers (close_channel (begin_close p))

abbrev pub empty_pool : ℕ → ℕ → ResourcePool
empty_pool min_size max_size = record {
  idle = [];
  min_size = min_size;
  max_size = max_size;
  closed = false;
  channel_closed = false;
  created = 0;
  available = pos 0;
  in_use = pos 0;
  destroyed = 0;
}

pub data PoolError : Type 0 where
  negative_minimum : PoolError
  maximum_too_small : PoolError
  create_failed : PoolError
  close_failed_first : String → PoolError

close_error : Option String → PoolError
close_error none = create_failed
close_error (some err) = close_failed_first err

-- The loop that creates the first resources: their numbers, or none where the factory gives an error,
-- which closes the pool again, with the answers of Close.
unfoldable pub prewarm :
    ℕ → List (Option ℕ) → List (Option String) → ResourcePool → ResourcePool × Option PoolError
unfolding close close_error inc
prewarm zero news closes p = (p, none)
prewarm (suc n) [] closes p = let (q, err) = close closes p in (q, some (close_error err))
prewarm (suc n) (none ∷ news) closes p =
    let (q, err) = close closes p in (q, some (close_error err))
prewarm (suc n) (some r ∷ news) closes p =
    prewarm n news closes
      (record p { idle = p.idle ++ r ∷ []; created = p.created + 1; available = inc p.available })

unfoldable pub new_resource_pool :
    ℤ → ℤ → List (Option ℕ) → List (Option String) → ResourcePool × Option PoolError
unfolding prewarm
new_resource_pool (negsuc n) max_size news closes = (empty_pool 0 0, some negative_minimum)
new_resource_pool (pos least) (negsuc n) news closes = (empty_pool 0 0, some maximum_too_small)
new_resource_pool (pos least) (pos most) news closes =
    if ltb most least
    then (empty_pool 0 0, some maximum_too_small)
    else prewarm least news closes (empty_pool least most)
