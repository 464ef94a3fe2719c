-- ===== src/JobQueue/Up.antt =====
-- The loop `up` of the heap.
use livekit_agent_sdk_go.Prelude.{
  ℕ, zero, suc, ◌+◌, ◌≤◌, ◌<◌, ◌≡◌, ◌≢◌, true, false, List, arith, ◌==◌, length,
}
use livekit_agent_sdk_go.Prelude.Exec.{Returns, returns, Returns-map, Returns-if}
use livekit_agent_sdk_go.JobQueue.Item.{JobQueueItem, comes_before}
use livekit_agent_sdk_go.JobQueue.Heap.{parent, up_loop, up}
use livekit_agent_sdk_go.JobQueue.Order.{
  entries, entry_at, item_at, NotAfter, NotAfter-trans, comes_before→NotAfter, not_before→NotAfter,
  IsHeapFrom, entry-item_at, less-ok, swap-ok, swapped, length-swapped,
}
use livekit_agent_sdk_go.JobQueue.Moved.{
  Moved, Moved-refl, Moved-trans, swapped-Moved, entry_at-swapped,
}

-- Below n only the edge above j may be out of order.
pub record UpInv (n : ℕ) (a : List JobQueueItem) (j : ℕ) : Type 0 where
  pub inside : j < n
  pub bound : n ≤ length a
  pub edges :
      (c : ℕ)
      → 0 < c
      → c < n
      → c ≢ j
      → NotAfter (entry_at (entries a) (parent c)) (entry_at (entries a) c)
  pub bridged :
      (c : ℕ)
      → 0 < c
      → c < n
      → parent c ≡ j
      → 0 < j
      → NotAfter (entry_at (entries a) (parent j)) (entry_at (entries a) c)

-- The items of a, in the order of a heap below n.
abbrev pub Restored : ℕ → List JobQueueItem → List JobQueueItem → Type 0
Restored n a b = Moved n a b × IsHeapFrom 0 n (entries b)

-- The test of Less on two items is a test on their entries.
module _ (a : List JobQueueItem) (i j : ℕ) where
  pub before_entries :
      comes_before (item_at a i) (item_at a j) ≡ true
      → NotAfter (entry_at (entries a) i) (entry_at (entries a) j)
  before_entries h = rw (entry-item_at a i, entry-item_at a j) (comes_before→NotAfter _ _ h)

  pub not_before_entries :
      comes_before (item_at a i) (item_at a j) ≡ false
      → NotAfter (entry_at (entries a) j) (entry_at (entries a) i)
  not_before_entries h = rw (entry-item_at a i, entry-item_at a j) (not_before→NotAfter _ _ h)

module _ (n : ℕ) (a : List JobQueueItem) (j : ℕ) (v : UpInv n a j) (hp : parent j < length a)
    (hj : j < length a) where
  rise-UpInv :
      0 < j
      → NotAfter (entry_at (entries a) j) (entry_at (entries a) (parent j))
      → UpInv n (swapped a (parent j) j hp hj) (parent j)
  rise-UpInv pos below =
      let at = entry_at-swapped a (parent j) j hp hj in
      let trans = NotAfter-trans (entry_at (entries a) j) (entry_at (entries a) (parent j)) in
      record {
        inside = omega (arith, v.inside);
        bound = omega (arith, v.bound, length-swapped a (parent j) j hp hj);
        edges = λ c p q r.
            ground
              (arith, at c, at (parent c), v.edges c, v.bridged c, trans (entry_at (entries a) c));
        bridged = λ c p q r s. ground (
          arith,
          at c,
          at (parent (parent j)),
          v.edges c,
          v.edges (parent j),
          NotAfter-trans (entry_at (entries a) (parent (parent j)))
              (entry_at (entries a) (parent j)) (entry_at (entries a) c),
        );
      }

settled-IsHeapFrom :
    (n : ℕ) (a : List JobQueueItem) (j : ℕ)
    → UpInv n a j
    → (0 < j → NotAfter (entry_at (entries a) (parent j)) (entry_at (entries a) j))
    → IsHeapFrom 0 n (entries a)
settled-IsHeapFrom n a j v h c p q r = ground (arith, v.edges c, h)

up_loop_restores :
    (k n : ℕ) (a : List JobQueueItem) (j : ℕ)
    → j < k
    → UpInv n a j
    → Returns (Restored n a) (up_loop k a j)
unfolding up_loop
up_loop_restores zero n a j f v = absurd (omega arith)
up_loop_restores (suc k) n a j f v =
    let hj : j < length a = omega (arith, v.inside, v.bound) in
    let hp : parent j < length a = omega arith in
    rw (less-ok a j (parent j) hj hp, swap-ok a (parent j) j hp hj)
      (Returns-if (parent j == j)
        (λ root. returns (Moved-refl n a, settled-IsHeapFrom n a j v (λ p. absurd (ground arith))))
        (λ inner.
          Returns-if (comes_before (item_at a j) (item_at a (parent j)))
            (λ below.
              Returns-map
                (up_loop_restores k n (swapped a (parent j) j hp hj) (parent j) (ground arith)
                  (rise-UpInv n a j v hp hj (ground arith) (before_entries a j (parent j) below)))
                λ b s. (
                  Moved-trans n _ _ _ (swapped-Moved a (parent j) j hp hj n (ground arith) v.inside)
                      s.0,
                  s.1,
                ))
            (λ settled. returns (
              Moved-refl n a,
              settled-IsHeapFrom n a j v (λ p. not_before_entries a j (parent j) settled),
            ))))

-- `up` ends, without a panic, in a heap of the same items, if only the edge above j was out of
-- order before.
pub up_restores :
    (n : ℕ) (a : List JobQueueItem) (j : ℕ) → UpInv n a j → Returns (Restored n a) (up a j)
unfolding up
up_restores n a j v = up_loop_restores (j + 1) n a j (omega arith) v
