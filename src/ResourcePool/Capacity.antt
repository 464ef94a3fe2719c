-- ===== src/ResourcePool/Capacity.antt =====
-- The limit on the size of the pool (pkg/agent/resource_pool.go).
use livekit_agent_sdk_go.Prelude.{
  ℕ, suc, zero, ◌+◌, ◌≡◌, refl, ap, ◌∙◌, true, false, none, some, [], arith, if◌then◌else◌,
}
use livekit_agent_sdk_go.Prelude.Int.{pos}
use livekit_agent_sdk_go.ResourcePool.{
  ResourcePool, Answers, must_create, nil_received, receive, take_from, has_capacity, create_new,
  dec,
}
use livekit_agent_sdk_go.ResourcePool.Steps.{
  System, after_take, after_create, enters, takes, passes, creates, Reach, start, step,
}
use livekit_agent_sdk_go.ResourcePool.Accounting.{inc_of, Accounted}

abbrev no_answers : Answers
no_answers = record { validate_error = none; close_error = none; reset_error = none }

receive_empty :
    (p : ResourcePool)
    → p.channel_closed ≡ false
    → p.idle ≡ []
    → receive no_answers p ≡ (p, must_create)
unfolding receive take_from
receive_empty p is_open empty =
    ap (λ l. take_from no_answers l p) empty
    ∙ ap
        (λ b.
          if b then (record p { available = dec p.available }, nil_received) else (p, must_create))
        is_open

-- A number of goroutines see an open pool.
all_enter :
    (k c : ℕ) (p : ResourcePool) (s t : System)
    → p.closed ≡ false
    → Reach s t
    → t.pool ≡ p
    → t.acquiring ≡ c
    → (u : System) × Reach s u
      × (u.pool ≡ p)
      × (u.acquiring ≡ c + k)
      × (u.deciding ≡ t.deciding)
      × (u.creating ≡ t.creating)
all_enter zero c p s t is_open r same f =
    let none_more : c ≡ c + 0 = omega arith in (t, r, same, f ∙ none_more, refl, refl)
all_enter (suc k) c p s t is_open r same f =
    let more : (c + 1) + k ≡ c + suc k = omega arith in
    let (u, reach, pool, g, d, e) =
      all_enter k (c + 1) p s (record t { acquiring = t.acquiring + 1 }) is_open
        (step r (enters (ap (λ (q : ResourcePool). q.closed) same ∙ is_open))) same
        (ap (λ n. n + 1) f) in
    (u, reach, pool, g ∙ more, d, e)

-- They find no idle resource.
all_take :
    (k d : ℕ) (p : ResourcePool) (s t : System)
    → p.channel_closed ≡ false
    → p.idle ≡ []
    → Reach s t
    → t.pool ≡ p
    → t.acquiring ≡ k
    → t.deciding ≡ d
    → (u : System) × Reach s u × (u.pool ≡ p) × (u.deciding ≡ d + k) × (u.creating ≡ t.creating)
unfolding after_take
all_take zero d p s t is_open empty r same a f =
    let none_more : d ≡ d + 0 = omega arith in (t, r, same, f ∙ none_more, refl)
all_take (suc k) d p s t is_open empty r same a f =
    let taken : receive no_answers t.pool ≡ (p, must_create) =
      ap (λ q. receive no_answers q) same ∙ receive_empty p is_open empty in
    let more : (d + 1) + k ≡ d + suc k = omega arith in
    let next = record t { acquiring = k } in
    let (u, reach, pool, g, c) =
      all_take k (d + 1) p s (after_take next (receive no_answers t.pool)) is_open empty
        (step r (takes k no_answers a)) (ap (λ x. (after_take next x).pool) taken)
        (ap (λ x. (after_take next x).acquiring) taken)
        (ap (λ x. (after_take next x).deciding) taken ∙ ap (λ n. n + 1) f) in
    (u, reach, pool, g ∙ more, c ∙ ap (λ x. (after_take next x).creating) taken)

-- All of them see that there is room.
all_pass :
    (k c : ℕ) (p : ResourcePool) (s t : System)
    → has_capacity p ≡ true
    → Reach s t
    → t.pool ≡ p
    → t.deciding ≡ k
    → t.creating ≡ c
    → (u : System) × Reach s u × (u.pool ≡ p) × (u.creating ≡ c + k)
all_pass zero c p s t room r same d f =
    let none_more : c ≡ c + 0 = omega arith in (t, r, same, f ∙ none_more)
all_pass (suc k) c p s t room r same d f =
    let more : (c + 1) + k ≡ c + suc k = omega arith in
    let (u, reach, pool, g) =
      all_pass k (c + 1) p s (record t { deciding = k; creating = t.creating + 1 }) room
        (step r (passes k d (ap has_capacity same ∙ room))) same refl (ap (λ n. n + 1) f) in
    (u, reach, pool, g ∙ more)

-- All of them create a resource.
all_create :
    (k h : ℕ) (s t : System)
    → Reach s t
    → t.creating ≡ k
    → t.pool.in_use ≡ pos h
    → (u : System) × Reach s u × (u.pool.in_use ≡ pos (h + k))
unfolding after_create create_new
all_create zero h s t r c f =
    let none_more : h ≡ h + 0 = omega arith in (t, r, f ∙ ap pos none_more)
all_create (suc k) h s t r c f =
    let more : (h + 1) + k ≡ h + suc k = omega arith in
    let (u, reach, used) =
      all_create k (h + 1) s (after_create (some 0) (record t { creating = k }))
        (step r (creates k (some 0) c)) refl (inc_of t.pool.in_use h f) in
    (u, reach, used ∙ ap pos more)

-- From an open pool with right counters, no idle resource, room for one more and no call of Acquire under
-- way, any number of callers of Acquire can all get a resource: the limit does not bound what concurrent
-- callers hold.
pub capacity_exceeded :
    (k : ℕ) (s : System)
    → s.pool.closed ≡ false
    → s.pool.channel_closed ≡ false
    → s.pool.idle ≡ []
    → has_capacity s.pool ≡ true
    → s.acquiring ≡ 0
    → s.deciding ≡ 0
    → s.creating ≡ 0
    → Accounted s
    → (u : System) × Reach s u × (u.pool.in_use ≡ pos (s.held + k))
capacity_exceeded k s is_open is_live empty room no_callers no_deciders no_creators counted =
    let zero_k : 0 + k ≡ k = omega arith in
    let (t, r, same, a, d, c) = all_enter k 0 s.pool s s is_open start refl no_callers in
    let (u, r', same', d', c') =
      all_take k 0 s.pool s t is_live empty r same (a ∙ zero_k) (d ∙ no_deciders) in
    let (v, r'', same'', c'') =
      all_pass k 0 s.pool s u room r' same' (d' ∙ zero_k) (c' ∙ c ∙ no_creators) in
    all_create k s.held s v r'' (c'' ∙ zero_k)
      (ap (λ (q : ResourcePool). q.in_use) same'' ∙ counted.use_told)
