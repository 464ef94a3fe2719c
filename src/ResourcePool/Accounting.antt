-- ===== src/ResourcePool/Accounting.antt =====
-- The counters of the pool against what there is (pkg/agent/resource_pool.go).
use livekit_agent_sdk_go.Prelude.{
  ℕ, suc, zero, ◌+◌, ◌≡◌, refl, sym, ap, ◌∙◌, String, Bool, Bool-cases, true, false, not, Option,
  none, some, List, [], ◌∷◌, ◌++◌, arith, ltb, if◌then◌else◌, if_cases, length, length-append, inl,
  inr,
}
use livekit_agent_sdk_go.Prelude.Int.{ℤ, pos}
use livekit_agent_sdk_go.Prelude.Exec.{Exec, ok, panic, out_of_fuel}
use livekit_agent_sdk_go.ResourcePool.{
  ResourcePool, Answers, Taken, pool_closed, acquired, close_failed, must_create, nil_received, inc,
  dec, discard, use_idle, take_from, receive, create_new, release, send_new, remove_idle, excess,
  cleanup_idle, begin_close, close_channel, drain_one,
}
use livekit_agent_sdk_go.ResourcePool.Steps.{
  System, after_take, after_create, after_send, after_drain, is_full, Step, enters, takes, passes,
  gives_up, creates, releases, refills, sends, cleans, closes, shuts, drains, drains_all, Reach,
  start, step,
}

-- The counters tell what is idle, in use, destroyed and lost.
pub record Tally (p : ResourcePool) (held lost drained uncounted : ℕ) : Type 0 where
  pub idle_told : p.available ≡ pos (length p.idle + drained)
  pub use_told : p.in_use ≡ pos held
  pub total : p.created + uncounted ≡ length p.idle + held + p.destroyed + lost

abbrev pub Accounted : System → Type 0
Accounted s = Tally s.pool s.held s.lost s.drained s.uncounted

dec-pos : (n : ℕ) → dec (pos (suc n)) ≡ pos n
unfolding dec
dec-pos n = ground arith

pub dec_of : (z : ℤ) (n : ℕ) → z ≡ pos (suc n) → dec z ≡ pos n
dec_of z n e = ap dec e ∙ dec-pos n

pub inc_of : (z : ℤ) (n : ℕ) → z ≡ pos n → inc z ≡ pos (n + 1)
unfolding inc
inc_of z n e = ap inc e

-- A resource was taken out of the channel and is in no counter yet.
record Taking (p : ResourcePool) (held lost drained uncounted : ℕ) : Type 0 where
  idle_told : p.available ≡ pos (length p.idle + drained)
  use_told : p.in_use ≡ pos held
  total : p.created + uncounted ≡ length p.idle + held + p.destroyed + lost + 1

discard-Accounted :
    (s : System) (o : Option String) (p : ResourcePool)
    → Taking p s.held s.lost s.drained s.uncounted
    → Accounted (after_take s (discard o p))
unfolding discard after_take
discard-Accounted s none p h = record {
  idle_told = h.idle_told;
  use_told = h.use_told;
  total = omega (arith, h.total);
}
discard-Accounted s (some err) p h = record {
  idle_told = h.idle_told;
  use_told = h.use_told;
  total = omega (arith, h.total);
}

use_idle-Accounted :
    (s : System) (r : ℕ) (validate reset closing : Option String) (p : ResourcePool)
    → Taking p s.held s.lost s.drained s.uncounted
    → Accounted (after_take s (use_idle r validate reset closing p))
unfolding use_idle after_take
use_idle-Accounted s r (some invalid) reset closing p h = discard-Accounted s closing p h
use_idle-Accounted s r none (some failed) closing p h = discard-Accounted s closing p h
use_idle-Accounted s r none none closing p h = record {
  idle_told = h.idle_told;
  use_told = inc_of p.in_use s.held h.use_told;
  total = omega (arith, h.total);
}

take_from-Accounted :
    (s : System) (a : Answers) (rs : List ℕ)
    → s.pool.idle ≡ rs
    → Accounted s
    → (after_take s (take_from a rs s.pool)).crashed ≡ false
    → Accounted (after_take s (take_from a rs s.pool))
unfolding take_from after_take
take_from-Accounted s a [] e h = elim (Bool-cases s.pool.channel_closed) [
  | inl shut ↦ rw shut (λ alive. absurd (ground arith))
  | inr is_open ↦
      rw is_open
        (λ alive. record { idle_told = h.idle_told; use_told = h.use_told; total = h.total })
]
take_from-Accounted s a (r ∷ rest) e h = λ alive.
    let count = ap length e in
    let told : suc (length rest + s.drained) ≡ length s.pool.idle + s.drained =
      omega (arith, count) in
    use_idle-Accounted s r a.validate_error a.reset_error a.close_error _ (record {
      idle_told =
          dec_of s.pool.available (length rest + s.drained) (h.idle_told ∙ ap pos (sym told));
      use_told = h.use_told;
      total = omega (arith, h.total, count);
    })

after_take-crashed :
    (s : System) (r : ResourcePool × Taken) → (after_take s r).crashed ≡ false → s.crashed ≡ false
unfolding after_take
after_take-crashed s (p, pool_closed) h = h
after_take-crashed s (p, acquired r) h = h
after_take-crashed s (p, close_failed err) h = h
after_take-crashed s (p, must_create) h = h
after_take-crashed s (p, nil_received) h = absurd (ground arith)

after_send-crashed :
    (s : System) (r : Exec ResourcePool) → (after_send r s).crashed ≡ false → s.crashed ≡ false
unfolding after_send
after_send-crashed s (ok p) h = h
after_send-crashed s panic h = absurd (ground arith)
after_send-crashed s out_of_fuel h = h

create-Accounted : (s : System) (new : Option ℕ) → Accounted s → Accounted (after_create new s)
unfolding after_create create_new
create-Accounted s none h = h
create-Accounted s (some r) h = record {
  idle_told = h.idle_told;
  use_told = inc_of s.pool.in_use s.held h.use_told;
  total = omega (arith, h.total);
}

release-Tally :
    (r n lost drained uncounted : ℕ) (healthy : Bool) (p : ResourcePool)
    → Tally p (suc n) lost drained uncounted
    → Tally (release r healthy p).0 n lost drained uncounted
unfolding release
release-Tally r n lost drained uncounted healthy p h =
    let used = dec_of p.in_use n h.use_told in
    let gone : Tally (record p { in_use = dec p.in_use; destroyed = p.destroyed + 1 }) n lost
        drained uncounted =
      record { idle_told = h.idle_told; use_told = used; total = omega (arith, h.total) } in
    let longer = length-append p.idle (r ∷ []) in
    let told : (length p.idle + drained) + 1 ≡ length (p.idle ++ r ∷ []) + drained =
      omega (arith, longer) in
    if_cases (λ (q : ResourcePool × Bool). Tally q.0 n lost drained uncounted) p.closed gone
      (if_cases (λ (q : ResourcePool × Bool). Tally q.0 n lost drained uncounted) (not healthy) gone
        (if_cases (λ (q : ResourcePool × Bool). Tally q.0 n lost drained uncounted)
          (ltb (length p.idle) p.max_size)
          (record {
            idle_told = inc_of p.available (length p.idle + drained) h.idle_told ∙ ap pos told;
            use_told = used;
            total = omega (arith, h.total, longer);
          })
          gone))

send_new-shut : (r : ℕ) (p : ResourcePool) → p.channel_closed ≡ true → send_new r p ≡ panic
unfolding send_new
send_new-shut r p shut = rw shut refl

send_new-room :
    (r : ℕ) (p : ResourcePool)
    → p.channel_closed ≡ false
    → ltb (length p.idle) p.max_size ≡ true
    → send_new r p
      ≡ ok (record p {
        idle = p.idle ++ r ∷ [];
        created = p.created + 1;
        available = inc p.available;
      })
unfolding send_new
send_new-room r p is_open room = ground arith

send_new-full :
    (r : ℕ) (p : ResourcePool)
    → p.channel_closed ≡ false
    → ltb (length p.idle) p.max_size ≡ false
    → send_new r p ≡ ok (record p { destroyed = p.destroyed + 1 })
unfolding send_new
send_new-full r p is_open full = ground arith

send-Accounted :
    (s : System) (r : ℕ)
    → Accounted s
    → (after_send (send_new r s.pool) s).crashed ≡ false
    → Accounted (after_send (send_new r s.pool) s)
unfolding after_send is_full
send-Accounted s r h = elim (Bool-cases s.pool.channel_closed) [
  | inl shut ↦ rw (send_new-shut r s.pool shut) (λ alive. absurd (ground arith))
  | inr is_open ↦ elim (Bool-cases (ltb (length s.pool.idle) s.pool.max_size)) [
    | inl room ↦
        let longer = length-append s.pool.idle (r ∷ []) in
        let told : (length s.pool.idle + s.drained) + 1
            ≡ length (s.pool.idle ++ r ∷ []) + s.drained =
          omega (arith, longer) in
        let counts = ap (λ b. if not b then s.uncounted + 1 else s.uncounted) room in
        rw (send_new-room r s.pool is_open room) (λ alive. record {
          idle_told =
              inc_of s.pool.available (length s.pool.idle + s.drained) h.idle_told ∙ ap pos told;
          use_told = h.use_told;
          total = omega (arith, h.total, longer, counts);
        })
    | inr full ↦
        let counts = ap (λ b. if not b then s.uncounted + 1 else s.uncounted) full in
        rw (send_new-full r s.pool is_open full) (λ alive. record {
          idle_told = h.idle_told;
          use_told = h.use_told;
          total = omega (arith, h.total, counts);
        })
  ]
]

remove_idle-Tally :
    (n : ℕ) (rs : List ℕ) (held lost drained uncounted : ℕ) (p : ResourcePool)
    → p.idle ≡ rs
    → Tally p held lost drained uncounted
    → Tally (remove_idle n rs p) held lost drained uncounted
unfolding remove_idle
remove_idle-Tally zero rs held lost drained uncounted p e h = h
remove_idle-Tally (suc n) [] held lost drained uncounted p e h = h
remove_idle-Tally (suc n) (r ∷ rs) held lost drained uncounted p e h =
    let count = ap length e in
    let told : length p.idle + drained ≡ suc (length rs + drained) = omega (arith, count) in
    remove_idle-Tally n rs held lost drained uncounted _ refl (record {
      idle_told = dec_of p.available (length rs + drained) (h.idle_told ∙ ap pos told);
      use_told = h.use_told;
      total = omega (arith, h.total, count);
    })

drain-Accounted :
    (s : System) (n r : ℕ) (rs : List ℕ) (answer : Option String)
    → s.pool.idle ≡ r ∷ rs
    → Accounted s
    → Accounted (after_drain n answer rs s)
unfolding after_drain drain_one
drain-Accounted s n r rs none e h =
    let count = ap length e in
    let moved : length s.pool.idle + s.drained ≡ length rs + (s.drained + 1) =
      omega (arith, count) in
    record {
      idle_told = h.idle_told ∙ ap pos moved;
      use_told = h.use_told;
      total = omega (arith, h.total, count);
    }
drain-Accounted s n r rs (some err) e h =
    let count = ap length e in
    let moved : length s.pool.idle + s.drained ≡ length rs + (s.drained + 1) =
      omega (arith, count) in
    record {
      idle_told = h.idle_told ∙ ap pos moved;
      use_told = h.use_told;
      total = omega (arith, h.total, count);
    }

after_drain-crashed :
    (s : System) (n : ℕ) (rs : List ℕ) (answer : Option String)
    → (after_drain n answer rs s).crashed ≡ s.crashed
unfolding after_drain
after_drain-crashed s n rs none = refl
after_drain-crashed s n rs (some err) = refl

after_create-crashed : (s : System) (new : Option ℕ) → (after_create new s).crashed ≡ s.crashed
unfolding after_create
after_create-crashed s none = refl
after_create-crashed s (some r) = refl

-- The counters are right as long as no call has panicked.
abbrev pub Accountable : System → Type 0
Accountable s = s.crashed ≡ false → Accounted s

step-Accountable : {s t : System} → Step s t → Accountable s → Accountable t
unfolding cleanup_idle begin_close close_channel receive
step-Accountable (enters is_open) h alive =
    let k = h alive in record { idle_told = k.idle_told; use_told = k.use_told; total = k.total }
step-Accountable {s = s} (takes n a e) h alive =
    let k = h (after_take-crashed (record s { acquiring = n }) (receive a s.pool) alive) in
    take_from-Accounted (record s { acquiring = n }) a s.pool.idle refl
      (record { idle_told = k.idle_told; use_told = k.use_told; total = k.total }) alive
step-Accountable (passes n e c) h alive =
    let k = h alive in record { idle_told = k.idle_told; use_told = k.use_told; total = k.total }
step-Accountable (gives_up n e c) h alive =
    let k = h alive in record { idle_told = k.idle_told; use_told = k.use_told; total = k.total }
step-Accountable {s = s} (creates n new e) h alive =
    let k = h (sym (after_create-crashed (record s { creating = n }) new) ∙ alive) in
    create-Accounted (record s { creating = n }) new
      (record { idle_told = k.idle_told; use_told = k.use_told; total = k.total })
step-Accountable {s = s} (releases n r healthy e) h alive =
    let k = h alive in
    release-Tally r n s.lost s.drained s.uncounted healthy s.pool (record {
      idle_told = k.idle_told;
      use_told = k.use_told ∙ ap pos e;
      total = k.total ∙ omega (arith, e);
    })
step-Accountable (refills is_open) h alive =
    let k = h alive in record { idle_told = k.idle_told; use_told = k.use_told; total = k.total }
step-Accountable {s = s} (sends n r e) h alive =
    let k = h (after_send-crashed (record s { refilling = n }) (send_new r s.pool) alive) in
    send-Accounted (record s { refilling = n }) r
      (record { idle_told = k.idle_told; use_told = k.use_told; total = k.total }) alive
step-Accountable {s = s} (cleans is_open) h alive =
    remove_idle-Tally (excess s.pool.available s.pool.min_size) s.pool.idle s.held s.lost s.drained
      s.uncounted s.pool refl (h alive)
step-Accountable (closes is_open) h alive =
    let k = h alive in record { idle_told = k.idle_told; use_told = k.use_told; total = k.total }
step-Accountable (shuts n e) h alive =
    let k = h alive in record { idle_told = k.idle_told; use_told = k.use_told; total = k.total }
step-Accountable {s = s} (drains n r rs answer e f) h alive =
    drain-Accounted s n r rs answer f (h (sym (after_drain-crashed s n rs answer) ∙ alive))
step-Accountable (drains_all n e f) h alive =
    let k = h alive in record { idle_told = k.idle_told; use_told = k.use_told; total = k.total }

reachable-Accountable : {s t : System} → Reach s t → Accountable s → Accountable t
reachable-Accountable start h = h
reachable-Accountable (step r e) h = step-Accountable e (reachable-Accountable r h)

-- Through every interleaving in which no call panics, from a pool whose counters are right: the
-- resources that were created are idle, in use, destroyed or lost to a failed Close, but for those that
-- createAsync destroyed without counting them as created; in_use is the number of resources that
-- clients hold; and available is the number of idle resources and of those that Close has drained. A
-- call of Acquire or createAsync that has seen an open pool panics if Close has closed its channel,
-- empty in the case of Acquire, before the call's select.
pub reachable-Accounted : {s t : System} → Reach s t → Accounted s → t.crashed ≡ false → Accounted t
reachable-Accounted r h alive = reachable-Accountable r (λ _. h) alive
