-- ===== src/ResourcePool/Steps.antt =====
-- The pool used by many goroutines (pkg/agent/resource_pool.go). Other goroutines do their steps between
-- the test of `closed` and the select in Acquire and in createAsync, between the test of the size in
-- createNew and the creation, and between the parts of Close. A factory that gives an error and a
-- createAsync that finds the pool closed change nothing.
use livekit_agent_sdk_go.Prelude.{
  ℕ, suc, ◌+◌, ◌≡◌, String, Bool, true, false, not, Option, none, some, List, [], ◌∷◌, ltb,
  if◌then◌else◌, length,
}
use livekit_agent_sdk_go.Prelude.Exec.{Exec, ok, panic, out_of_fuel}
use livekit_agent_sdk_go.ResourcePool.{
  ResourcePool, Answers, Taken, pool_closed, acquired, close_failed, must_create, nil_received,
  receive, has_capacity, create_new, release, send_new, cleanup_idle, begin_close, close_channel,
  drain_one,
}

-- What the clients and the goroutines hold, next to the pool's own counters: `held` resources are in
-- use, `lost` ones were taken out but not counted as destroyed since their Close failed, `drained` ones
-- were taken out by Close, and `uncounted` ones were destroyed without being counted as created. Calls
-- of Acquire and of createAsync that have seen an open pool are `acquiring` and `refilling`; those
-- before and after the test of the size are `deciding` and `creating`; calls of Close before and after
-- the close of the channel are `closing` and `draining`. A call has panicked if `crashed`.
pub record System : Type 0 where
  pub pool : ResourcePool
  pub held : ℕ
  pub lost : ℕ
  pub drained : ℕ
  pub uncounted : ℕ
  pub acquiring : ℕ
  pub deciding : ℕ
  pub creating : ℕ
  pub refilling : ℕ
  pub closing : ℕ
  pub draining : ℕ
  pub crashed : Bool

-- The system after a goroutine has looked for an idle resource.
unfoldable pub after_take : System → ResourcePool × Taken → System
after_take s (p, pool_closed) = record s { pool = p }
after_take s (p, acquired r) = record s { pool = p; held = s.held + 1 }
after_take s (p, close_failed err) = record s { pool = p; lost = s.lost + 1 }
after_take s (p, must_create) = record s { pool = p; deciding = s.deciding + 1 }
after_take s (p, nil_received) = record s { pool = p; crashed = true }

unfoldable pub after_create : Option ℕ → System → System
unfolding create_new
after_create none s = s
after_create (some r) s = record s { pool = create_new (some r) s.pool; held = s.held + 1 }

-- createAsync finds the channel full.
unfoldable pub is_full : ResourcePool → Bool
is_full p = not (ltb (length p.idle) p.max_size)

-- The system after the select of createAsync.
unfoldable pub after_send : Exec ResourcePool → System → System
unfolding is_full
after_send (ok p) s = record s {
  pool = p;
  uncounted = if is_full s.pool then s.uncounted + 1 else s.uncounted;
}
after_send panic s = record s { crashed = true }
after_send out_of_fuel s = s

-- The system after a round of the loop of Close, whose first error ends it.
unfoldable pub after_drain : ℕ → Option String → List ℕ → System → System
unfolding drain_one
after_drain n none rs s = record s { pool = drain_one none rs s.pool; drained = s.drained + 1 }
after_drain n (some err) rs s = record s {
  pool = drain_one (some err) rs s.pool;
  drained = s.drained + 1;
  lost = s.lost + 1;
  draining = n;
}

-- Close waits for the goroutine of cleanupIdle before it closes the channel.
pub data Step (s : System) : System → Type 0 where
  enters : s.pool.closed ≡ false → Step s (record s { acquiring = s.acquiring + 1 })
  takes :
      (n : ℕ) (a : Answers)
      → s.acquiring ≡ suc n
      → Step s (after_take (record s { acquiring = n }) (receive a s.pool))
  passes :
      (n : ℕ)
      → s.deciding ≡ suc n
      → has_capacity s.pool ≡ true
      → Step s (record s { deciding = n; creating = s.creating + 1 })
  gives_up :
      (n : ℕ)
      → s.deciding ≡ suc n
      → has_capacity s.pool ≡ false
      → Step s (record s { deciding = n })
  creates :
      (n : ℕ) (new : Option ℕ)
      → s.creating ≡ suc n
      → Step s (after_create new (record s { creating = n }))
  releases :
      (n r : ℕ) (healthy : Bool)
      → s.held ≡ suc n
      → Step s (record s { pool = (release r healthy s.pool).0; held = n })
  refills : s.pool.closed ≡ false → Step s (record s { refilling = s.refilling + 1 })
  sends :
      (n r : ℕ)
      → s.refilling ≡ suc n
      → Step s (after_send (send_new r s.pool) (record s { refilling = n }))
  cleans : s.pool.channel_closed ≡ false → Step s (record s { pool = cleanup_idle s.pool })
  closes :
      s.pool.closed ≡ false
      → Step s (record s { pool = begin_close s.pool; closing = s.closing + 1 })
  shuts :
      (n : ℕ)
      → s.closing ≡ suc n
      → Step s (record s { pool = close_channel s.pool; closing = n; draining = s.draining + 1 })
  drains :
      (n r : ℕ) (rs : List ℕ) (answer : Option String)
      → s.draining ≡ suc n
      → s.pool.idle ≡ r ∷ rs
      → Step s (after_drain n answer rs s)
  drains_all : (n : ℕ) → s.draining ≡ suc n → s.pool.idle ≡ [] → Step s (record s { draining = n })

pub data Reach (s : System) : System → Type 0 where
  start : Reach s s
  step : {t u : System} → Reach s t → Step t u → Reach s u
