-- ===== src/JobQueue/Down.antt =====
-- The loop `down` of the heap.
use livekit_agent_sdk_go.Prelude.{
  ℕ, zero, suc, ◌+◌, ◌-◌, ◌*◌, ◌≤◌, ◌<◌, ◌≡◌, ◌≢◌, ◌⊎◌, inl, inr, refl, List, arith, length, ltb,
  leb, Bool-cases,
}
use livekit_agent_sdk_go.Prelude.Exec.{Returns, returns, Returns-bind, Returns-map, Returns-if}
use livekit_agent_sdk_go.JobQueue.Item.{JobQueueItem, comes_before}
use livekit_agent_sdk_go.JobQueue.Heap.{parent, first_child, down_loop, down}
use livekit_agent_sdk_go.JobQueue.Order.{
  entries, entry_at, item_at, NotAfter, NotAfter-trans, NotAfter-refl, less-ok, swap-ok, swapped,
  length-swapped,
}
use livekit_agent_sdk_go.JobQueue.Moved.{
  Moved, Moved-refl, Moved-trans, swapped-Moved, entry_at-swapped,
}
use livekit_agent_sdk_go.JobQueue.Up.{before_entries, not_before_entries}

-- m is the child of i that may come out before the other one.
record IsFirstChild (n : ℕ) (a : List JobQueueItem) (i m : ℕ) : Type 0 where
  inside : m < n
  above : parent m ≡ i
  below : i < m
  least :
      (c : ℕ)
      → 0 < c
      → c < n
      → parent c ≡ i
      → NotAfter (entry_at (entries a) m) (entry_at (entries a) c)

first_child-IsFirstChild :
    (n : ℕ) (a : List JobQueueItem) (i : ℕ)
    → n ≤ length a
    → 2 * i + 1 < n
    → Returns (IsFirstChild n a i) (first_child n a i)
unfolding first_child
first_child-IsFirstChild n a i bound h =
    let j1 = 2 * i + 1 in
    let j2 = j1 + 1 in
    let itself = λ (c : ℕ). NotAfter-refl (entry_at (entries a) c) in
    Returns-if (ltb j2 n)
      (λ two.
        let hr : j2 < length a = ground arith in
        let hl : j1 < length a = omega arith in
        rw (less-ok a j2 j1 hr hl) (elim (Bool-cases (comes_before (item_at a j2) (item_at a j1))) [
          | inl e ↦ rw e (
              returns (record {
                inside = ground arith;
                above = omega arith;
                below = omega arith;
                least = λ c p q r. ground (arith, itself c, before_entries a j2 j1 e);
              }))
          | inr e ↦ rw e (
              returns (record {
                inside = h;
                above = omega arith;
                below = omega arith;
                least = λ c p q r. ground (arith, itself c, not_before_entries a j2 j1 e);
              }))
        ]))
      (λ one. returns (record {
        inside = h;
        above = omega arith;
        below = omega arith;
        least = λ c p q r. ground (arith, itself c);
      }))

-- Below n and from lo on, only the edges at i may be out of order. The entry at i came down from
-- top, and since it moved the edge above it is in order too.
pub record DownInv (lo n : ℕ) (a : List JobQueueItem) (top i : ℕ) : Type 0 where
  pub bound : n ≤ length a
  pub sunk : top ≤ i
  pub edges :
      (c : ℕ)
      → 0 < c
      → c < n
      → lo ≤ parent c
      → c ≢ i
      → parent c ≢ i
      → NotAfter (entry_at (entries a) (parent c)) (entry_at (entries a) c)
  pub bridged :
      (c : ℕ)
      → 0 < c
      → c < n
      → parent c ≡ i
      → 0 < i
      → lo ≤ parent i
      → NotAfter (entry_at (entries a) (parent i)) (entry_at (entries a) c)
  pub above :
      top < i → lo ≤ parent i → NotAfter (entry_at (entries a) (parent i)) (entry_at (entries a) i)

-- What the loop leaves: all edges are in order but the one above top, and that one too if the entry
-- moved; if it did not, nothing changed.
pub record Sunk (lo n : ℕ) (a : List JobQueueItem) (top : ℕ) (b : List JobQueueItem) (i : ℕ)
    : Type 0 where
  pub moved : Moved n a b
  pub lower : top ≤ i
  pub edges :
      (c : ℕ)
      → 0 < c
      → c < n
      → lo ≤ parent c
      → (c ≢ top) ⊎ (top < i)
      → NotAfter (entry_at (entries b) (parent c)) (entry_at (entries b) c)
  pub stayed : i ≡ top → b ≡ a

module _ (lo n : ℕ) (a : List JobQueueItem) (top i m : ℕ) (v : DownInv lo n a top i)
    (f : IsFirstChild n a i m) (hi : i < length a) (hm : m < length a) where
  sink-DownInv :
      NotAfter (entry_at (entries a) m) (entry_at (entries a) i)
      → DownInv lo n (swapped a i m hi hm) top m
  sink-DownInv below =
      let at = entry_at-swapped a i m hi hm in
      record {
        bound = omega (arith, v.bound, length-swapped a i m hi hm);
        sunk = omega (arith, v.sunk, f.below);
        edges = λ c p q r s t. ground (
          arith,
          f.above,
          f.below,
          at c,
          at (parent c),
          v.edges c,
          v.bridged m,
          f.inside,
          f.least c,
        );
        bridged = λ c p q r s t. ground (arith, f.above, f.below, at c, at (parent m), v.edges c);
        above = λ p q. ground (arith, f.above, f.below, at m, at (parent m));
      }

-- The loop stops where the entry is not after either child.
stop-Sunk :
    (lo n : ℕ) (a : List JobQueueItem) (top i : ℕ)
    → DownInv lo n a top i
    → ((c : ℕ)
        → 0 < c
        → c < n
        → parent c ≡ i
        → NotAfter (entry_at (entries a) i) (entry_at (entries a) c))
    → Sunk lo n a top a i
stop-Sunk lo n a top i v h = record {
  moved = Moved-refl n a;
  lower = v.sunk;
  edges = λ c p q r s. ground (arith, v.edges c, h c, v.above);
  stayed = λ e. refl;
}

-- A step of the loop, followed by the rest of it.
step-Sunk :
    (lo n : ℕ) (a b : List JobQueueItem) (top i m : ℕ) (c : List JobQueueItem) (j : ℕ)
    → top ≤ i
    → i < m
    → m ≤ j
    → Moved n a b
    → Sunk lo n b top c j
    → Sunk lo n a top c j
step-Sunk lo n a b top i m c j p q r moved s = record {
  moved = Moved-trans n a b c moved s.moved;
  lower = s.lower;
  edges = s.edges;
  stayed = λ e. absurd (omega arith);
}

down_loop-Sunk :
    (k lo n : ℕ) (a : List JobQueueItem) (top i : ℕ)
    → n - i < k
    → DownInv lo n a top i
    → Returns (λ r. (i ≤ r.1) × Sunk lo n a top r.0 r.1) (down_loop k n a i)
unfolding down_loop
down_loop-Sunk zero lo n a top i f v = absurd (omega arith)
down_loop-Sunk (suc k) lo n a top i f v =
    Returns-if (leb n (2 * i + 1))
      (λ leaf. returns (omega arith, stop-Sunk lo n a top i v (λ c p q r. absurd (ground arith))))
      (λ inner.
        let inside : 2 * i + 1 < n = ground arith in
        Returns-bind (first_child-IsFirstChild n a i v.bound inside) λ m s.
          let hi : i < length a = omega (arith, v.bound) in
          let hm : m < length a = omega (arith, v.bound, s.inside) in
          rw (less-ok a m i hm hi, swap-ok a i m hi hm)
            (Returns-if (comes_before (item_at a m) (item_at a i))
              (λ below.
                Returns-map
                  (down_loop-Sunk k lo n (swapped a i m hi hm) top m (omega (arith, s.below))
                    (sink-DownInv lo n a top i m v s hi hm (before_entries a m i below)))
                  (λ r t. (
                    omega (arith, s.below),
                    step-Sunk lo n a (swapped a i m hi hm) top i m r.0 r.1 v.sunk s.below t.0
                        (swapped-Moved a i m hi hm n (omega arith) s.inside) t.1,
                  )))
              (λ settled. returns (
                omega arith,
                stop-Sunk lo n a top i v (λ c p q r.
                    NotAfter-trans (entry_at (entries a) i) (entry_at (entries a) m)
                      (entry_at (entries a) c) (not_before_entries a m i settled)
                      (s.least c p q r)),
              ))))

-- `down` ends without a panic, and tells whether the entry moved.
pub down-Sunk :
    (lo n : ℕ) (a : List JobQueueItem) (i : ℕ)
    → DownInv lo n a i i
    → Returns (λ r. (j : ℕ) × (r.1 ≡ ltb i j) × Sunk lo n a i r.0 j) (down a i n)
unfolding down
down-Sunk lo n a i v =
    Returns-bind (down_loop-Sunk (n + 1) lo n a i i (omega arith) v) λ r s. returns (r.1, refl, s.1)
