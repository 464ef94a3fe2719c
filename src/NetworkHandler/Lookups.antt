-- ===== src/NetworkHandler/Lookups.antt =====
-- The retries of DNS lookups (pkg/agent/network_handler.go).
use livekit_agent_sdk_go.Prelude.{
  ℕ, suc, zero, ◌+◌, ◌-◌, ◌≤◌, ◌<◌, ◌≡◌, refl, ap, ◌∙◌, Bool-cases, false, List, arith, ltb, inl,
  inr, ◌⊎◌,
}
use livekit_agent_sdk_go.NetworkHandler.{
  NetworkHandler, Resolver, addresses, temporary, other_error, resolved, gave_up, resolve_loop,
  resolve_dns_with_retry, count_failure,
}

-- A round that fails and is repeated: the context is not done, and the lookup fails with a temporary
-- DNS error or one that is none of those the code knows.
abbrev pub Repeats : Resolver → ℕ → Type 0
Repeats env i =
    (env.done_before i ≡ false)
    × ((env.answer i ≡ temporary) ⊎ (env.answer i ≡ other_error))
    × (env.done_waiting i ≡ false)

abbrev pub with_failures : ℕ → NetworkHandler → NetworkHandler
with_failures k n = record n { dns_failure_count = n.dns_failure_count + k }

one_round :
    (env : Resolver) (left r : ℕ) (n : NetworkHandler)
    → Repeats env r
    → resolve_loop env (suc left) r n ≡ resolve_loop env left (suc r) (count_failure n)
unfolding resolve_loop
one_round env left r n (before, inl e, after) = rw (before, e, after) refl
one_round env left r n (before, inr e, after) = elim (Bool-cases (ltb 0 left)) [
  | inl t ↦ rw (before, e, t, after) refl
  | inr f ↦ rw (before, e, f) refl
]

rounds :
    (env : Resolver) (k left r : ℕ) (n : NetworkHandler)
    → ((i : ℕ) → r ≤ i → i < r + k → Repeats env i)
    → resolve_loop env (k + left) r n ≡ resolve_loop env left (r + k) (with_failures k n)
unfolding count_failure
rounds env zero left r n all =
    ap (λ x. resolve_loop env x r n) {x = 0 + left} {y = left} (omega arith)
    ∙ ap (λ x. resolve_loop env left x n) {x = r} {y = r + 0} (omega arith)
    ∙ ap (λ x. resolve_loop env left (r + 0) (record n { dns_failure_count = x }))
        {x = n.dns_failure_count} {y = n.dns_failure_count + 0} (omega arith)
rounds env (suc k) left r n all =
    ap (λ x. resolve_loop env x r n) {x = suc k + left} {y = suc (k + left)} (omega arith)
    ∙ one_round env (k + left) r n (all r (omega arith) (omega arith))
    ∙ rounds env k left (suc r) (count_failure n)
        (λ i from to. all i (omega (arith, from)) (omega (arith, to)))
    ∙ ap (λ x. resolve_loop env left x (with_failures k (count_failure n))) {x = suc r + k}
        {y = r + suc k} (omega arith)
    ∙ ap (λ x. resolve_loop env left (r + suc k) (record n { dns_failure_count = x }))
        {x = n.dns_failure_count + 1 + k} {y = n.dns_failure_count + suc k} (omega arith)

-- If some lookups fail and may be repeated, fewer than the limit, and the next one finds addresses,
-- then these are the answer, and the count of failures is reset. No later lookup is made: the answer
-- does not depend on what it would have been.
pub first_success :
    (env : Resolver) (k : ℕ) (found : List ℕ) (n : NetworkHandler)
    → k < n.max_dns_retries
    → ((i : ℕ) → i < k → Repeats env i)
    → env.done_before k ≡ false
    → env.answer k ≡ addresses found
    → resolve_dns_with_retry env n ≡ (record n { dns_failure_count = 0 }, resolved found)
unfolding resolve_dns_with_retry resolve_loop
first_success env k found n h all before e =
    let left = n.max_dns_retries - k - 1 in
    ap (λ x. resolve_loop env x 0 n) {x = n.max_dns_retries} {y = k + suc left} (omega arith)
    ∙ rounds env k (suc left) 0 n (λ i from to. all i (omega (arith, to)))
    ∙ ap (λ x. resolve_loop env (suc left) x (with_failures k n)) {x = 0 + k} {y = k} (omega arith)
    ∙ rw (before, e) refl

-- If every lookup within the limit fails and may be repeated, the call gives up after as many
-- lookups as the limit, and each of them has been counted as a failure.
pub gives_up :
    (env : Resolver) (n : NetworkHandler)
    → ((i : ℕ) → i < n.max_dns_retries → Repeats env i)
    → resolve_dns_with_retry env n ≡ (with_failures n.max_dns_retries n, gave_up n.max_dns_retries)
unfolding resolve_dns_with_retry resolve_loop
gives_up env n all =
    let most = n.max_dns_retries in
    ap (λ x. resolve_loop env x 0 n) {x = most} {y = most + 0} (omega arith)
    ∙ rounds env most 0 0 n (λ i from to. all i (omega (arith, to)))
    ∙ ap (λ x. (with_failures most n, gave_up x)) {x = 0 + most} {y = most} (omega arith)
