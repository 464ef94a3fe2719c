-- ===== src/JobQueue/Moved.antt =====
-- What the loops of the heap leave alone: they only move items about below a bound.
use mathlib.Core.List.{Perm}
use mathlib.Core.List.Perm
use livekit_agent_sdk_go.Prelude.{
  ℕ, ◌≤◌, ◌<◌, ◌≡◌, refl, ◌∙◌, List, arith, ◌==◌, if◌then◌else◌, length,
}
use livekit_agent_sdk_go.Prelude.Arrays.{get_or-exchange, exchange-perm}
use livekit_agent_sdk_go.JobQueue.Item.{JobQueueItem}
use livekit_agent_sdk_go.JobQueue.Order.{
  no_entry, entries, entry_at, IsIndexed, swapped, length-swapped, entries-swapped,
  swapped-IsIndexed, length-entries,
}

-- b holds the items of a, in another order below n, and knows their positions if a does.
pub record Moved (n : ℕ) (a b : List JobQueueItem) : Type 0 where
  pub size : length b ≡ length a
  pub same : Perm (entries b) (entries a)
  pub kept : (c : ℕ) → n ≤ c → entry_at (entries b) c ≡ entry_at (entries a) c
  pub indexed : IsIndexed a → IsIndexed b

pub Moved-refl : (n : ℕ) (a : List JobQueueItem) → Moved n a a
Moved-refl n a = record { size = refl; same = Perm.rfl; kept = λ c h. refl; indexed = λ v. v }

pub Moved-trans : (n : ℕ) (a b c : List JobQueueItem) → Moved n a b → Moved n b c → Moved n a c
Moved-trans n a b c p q = record {
  size = q.size ∙ p.size;
  same = Perm.trans q.same p.same;
  kept = λ i h. q.kept i h ∙ p.kept i h;
  indexed = λ v. q.indexed (p.indexed v);
}

module _ (a : List JobQueueItem) (i j : ℕ) (hi : i < length a) (hj : j < length a) where
  -- The entries after a swap, position by position.
  pub entry_at-swapped :
      (c : ℕ)
      → entry_at (entries (swapped a i j hi hj)) c ≡ (
          if j == c
          then entry_at (entries a) i
          else if i == c
          then entry_at (entries a) j
          else entry_at (entries a) c)
  entry_at-swapped c = rw (entries-swapped a i j hi hj) (
      get_or-exchange no_entry (entries a) i j (rw (length-entries a) hi) (rw (length-entries a) hj)
        c)

  pub swapped-Moved : (n : ℕ) → i < n → j < n → Moved n a (swapped a i j hi hj)
  swapped-Moved n p q = record {
    size = length-swapped a i j hi hj;
    same = rw (entries-swapped a i j hi hj) (
        exchange-perm no_entry (entries a) i j (rw (length-entries a) hi)
          (rw (length-entries a) hj));
    kept = λ c h. ground (arith, entry_at-swapped c);
    indexed = swapped-IsIndexed a i j hi hj;
  }
