-- ===== src/ResourcePool/Examples.antt =====
-- Concrete runs of the pool of resources.
use livekit_agent_sdk_go.Prelude.{◌≡◌, refl, false, true, none, some, [], ◌∷◌}
use livekit_agent_sdk_go.Prelude.Int.{pos, ◌+ℤ◌}
use livekit_agent_sdk_go.ResourcePool.{
  ResourcePool, Answers, empty_pool, new_resource_pool, receive, take_from, has_capacity, size, inc,
  dec, begin_close, close_channel, drain_one, prewarm, use_idle,
}
use livekit_agent_sdk_go.ResourcePool.Steps.{
  System, after_take, after_drain, enters, takes, closes, shuts, drains, Reach, start, step,
}
use livekit_agent_sdk_go.ResourcePool.Accounting.{Accounted, reachable-Accounted}
use livekit_agent_sdk_go.ResourcePool.Capacity.{capacity_exceeded}

abbrev answers : Answers
answers = record { validate_error = none; close_error = none; reset_error = none }

abbrev system : ResourcePool → System
system p = record {
  pool = p;
  held = 0;
  lost = 0;
  drained = 0;
  uncounted = 0;
  acquiring = 0;
  deciding = 0;
  creating = 0;
  refilling = 0;
  closing = 0;
  draining = 0;
  crashed = false;
}

abbrev pair : ResourcePool
pair = (new_resource_pool (pos 2) (pos 3) (some 5 ∷ some 6 ∷ []) []).0

pair-Accounted : Accounted (system pair)
unfolding new_resource_pool prewarm inc
pair-Accounted = record { idle_told = refl; use_told = refl; total = refl }

-- A resource is acquired, and then Close closes the channel and takes out the other one.
abbrev drained_pair : System
unfolding after_take receive begin_close close_channel after_drain
drained_pair =
    let taken = after_take (record (system pair) { acquiring = 0 }) (receive answers pair) in
    after_drain 0 none []
      (record taken { pool = close_channel (begin_close taken.pool); closing = 0; draining = 1 })

drained_pair-Reach : Reach (system pair) drained_pair
unfolding drained_pair new_resource_pool prewarm inc dec receive take_from after_take use_idle
    begin_close close_channel after_drain drain_one
drained_pair-Reach =
    step
      (step (step (step (step start (enters refl)) (takes 0 answers refl)) (closes refl))
        (shuts 0 refl))
      (drains 0 6 [] none refl refl)

reachable-Accounted_example : Accounted drained_pair
unfolding drained_pair new_resource_pool prewarm inc dec receive take_from after_take use_idle
    after_drain
reachable-Accounted_example = reachable-Accounted drained_pair-Reach pair-Accounted refl

-- The pool is closed between the test and the select of an Acquire, which then panics.
acquire_panics :
    (after_take
      (system (empty_pool 0 1))
      (receive answers (close_channel (empty_pool 0 1)))).crashed
    ≡ true
unfolding after_take receive take_from close_channel
acquire_panics = refl

empty-Accounted : Accounted (system (empty_pool 0 1))
empty-Accounted = record { idle_told = refl; use_told = refl; total = refl }

-- Three goroutines get a resource from a pool for one.
capacity_exceeded_example :
    (u : System) × Reach (system (empty_pool 0 1)) u × (u.pool.in_use ≡ pos 3)
unfolding has_capacity size ◌+ℤ◌
capacity_exceeded_example =
    capacity_exceeded 3 (system (empty_pool 0 1)) refl refl refl refl refl refl refl empty-Accounted
