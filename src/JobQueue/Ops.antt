-- ===== src/JobQueue/Ops.antt =====
-- What Push, Pop and Remove of the heap do to a heap.
use mathlib.Core.List.{Perm, append-nil, perm_middle}
use mathlib.Core.List
use mathlib.Core.Path.{subst}
use mathlib.Core.List.Perm
use livekit_agent_sdk_go.Prelude.{
  ℕ, zero, suc, ◌+◌, ◌-◌, ◌<◌, ◌≡◌, inl, inr, refl, sym, ap, ◌∙◌, List, [], ◌∷◌, ◌++◌, arith, ◌==◌,
  length, length-append, take, Bool-cases,
}
use livekit_agent_sdk_go.Prelude.Exec.{
  Returns, returns, Returns-bind, Returns-map, Returns-if, ◌>>=◌,
}
use livekit_agent_sdk_go.Prelude.Int.{pos, negsuc}
use livekit_agent_sdk_go.Prelude.Arrays.{
  get_or-append, get_or-append_last, get_or-take, take-append-last, map-take,
}
use livekit_agent_sdk_go.JobQueue.Item.{JobQueueItem, Entry, push, pop}
use livekit_agent_sdk_go.JobQueue.Heap.{parent, heap_push, heap_pop, heap_remove, sift_out}
use livekit_agent_sdk_go.JobQueue.Order.{
  no_item, no_entry, entries, entry_at, item_at, NotAfter, NotAfter-trans, IsHeap, IsHeapFrom,
  IsIndexed, load-ok, swap-ok, swapped, length-swapped, length-entries, entry-item_at,
}
use livekit_agent_sdk_go.JobQueue.Moved.{Moved-trans, swapped-Moved, entry_at-swapped}
use livekit_agent_sdk_go.JobQueue.Up.{UpInv, Restored, up_restores}
use livekit_agent_sdk_go.JobQueue.Down.{DownInv, Sunk, down-Sunk}

-- An item taken out of a, which stood at i, and the items that are left.
pub record Out (a : List JobQueueItem) (i : ℕ) (r : JobQueueItem × List JobQueueItem) : Type 0 where
  pub entry : r.0.entry ≡ entry_at (entries a) i
  pub index : r.0.index ≡ negsuc 0
  pub heap : IsHeap (entries r.1)
  pub same : Perm (r.0.entry ∷ entries r.1) (entries a)
  pub indexed : IsIndexed a → IsIndexed r.1
  pub size : suc (length r.1) ≡ length a

entries-append : (a b : List JobQueueItem) → entries (a ++ b) ≡ entries a ++ entries b
entries-append a b = List.map-append (λ x. x.entry) a b

-- An entry behind a list, or in front of it.
behind-perm : (e : List Entry) (x : Entry) → Perm (x ∷ e) (e ++ x ∷ [])
behind-perm e x = Perm.symm (rw (append-nil e) at (perm_middle {a = x} e []))

length-take_all : (n : ℕ) (a : List JobQueueItem) → length a ≡ suc n → length (take n a) ≡ n
length-take_all zero a h = refl
length-take_all (suc n) (x ∷ a) h = ap suc (length-take_all n a (omega arith))
length-take_all n [] h = absurd (omega arith)

module _ (n : ℕ) (b : List JobQueueItem) (size : length b ≡ suc n) where
  take-IsHeap : IsHeapFrom 0 n (entries b) → IsHeap (entries (take n b))
  take-IsHeap h c p q r = rw (map-take (λ x. x.entry) n b) (
      let short : c < n = omega (arith, length-entries (take n b), length-take_all n b size) in
      rw
        (
          get_or-take n (entries b) c no_entry short,
          get_or-take n (entries b) (parent c) no_entry (omega arith),
        )
        (h c p short r))

  take-IsIndexed : IsIndexed b → IsIndexed (take n b)
  take-IsIndexed v c h =
      let short : c < n = omega (arith, length-take_all n b size) in
      rw (get_or-take n b c no_item short) (v c (omega arith))

  take-perm : Perm ((item_at b n).entry ∷ entries (take n b)) (entries b)
  take-perm = Perm.trans (behind-perm (entries (take n b)) (item_at b n).entry) (rw whole Perm.rfl)
    where
      whole : entries (take n b) ++ (item_at b n).entry ∷ [] ≡ entries b
      whole =
          sym (entries-append (take n b) (item_at b n ∷ []))
          ∙ ap entries (take-append-last n b no_item size)

module _ (n : ℕ) (a b : List JobQueueItem) (i : ℕ) (size : length a ≡ suc n) where
  pop-Out :
      length b ≡ length a
      → Perm (entries b) (entries a)
      → (IsIndexed a → IsIndexed b)
      → entry_at (entries b) n ≡ entry_at (entries a) i
      → IsHeapFrom 0 n (entries b)
      → Returns (Out a i) (pop b)
  unfolding pop
  pop-Out hb same indexed last heap =
      Returns-if (length b == 0) (λ e. absurd (ground arith))
        λ _.
          let at : length b - 1 ≡ n = omega arith in
          let sb : length b ≡ suc n = omega arith in
          rw (at, load-ok b n (omega arith))
            (returns (record {
              entry = sym (entry-item_at b n) ∙ last;
              index = refl;
              heap = take-IsHeap n b sb heap;
              same = Perm.trans (take-perm n b sb) same;
              indexed = λ v. take-IsIndexed n b sb (indexed v);
              size = omega (arith, length-take_all n b sb);
            }))

-- Pop takes out the root of a heap that is not empty.
pub heap_pop-Out :
    (a : List JobQueueItem) → IsHeap (entries a) → 0 < length a → Returns (Out a 0) (heap_pop a)
unfolding heap_pop
heap_pop-Out a h full =
    let n = length a - 1 in
    let hn : n < length a = omega arith in
    let b = swapped a 0 n full hn in
    let at = entry_at-swapped a 0 n full hn in
    let first = swapped-Moved a 0 n full hn (length a) full hn in
    rw (swap-ok a 0 n full hn) (
      Returns-bind
        (down-Sunk 0 n b 0 (record {
          bound = omega (arith, first.size);
          sunk = omega arith;
          edges = λ c p q r s t. ground (arith, at c, at (parent c), h c, length-entries a);
          bridged = λ c p q r s t. absurd (omega arith);
          above = λ p q. absurd (omega arith);
        }))
        λ r s.
          let rest = s.2 in
          pop-Out n a r.0 0 (omega arith) (rest.moved.size ∙ first.size)
            (Perm.trans rest.moved.same first.same) (λ v. rest.moved.indexed (first.indexed v))
            (rest.moved.kept n (omega arith) ∙ ground (arith, at n))
            (λ c p q t. rest.edges c p q t (inl (omega arith))))

module _ (a : List JobQueueItem) (e : Entry) where
  length-push : length (push a e) ≡ length a + 1
  unfolding push
  length-push = length-append a (record { entry = e; index = pos (length a) } ∷ [])

  entries-push : entries (push a e) ≡ entries a ++ e ∷ []
  unfolding push
  entries-push = entries-append a (record { entry = e; index = pos (length a) } ∷ [])

  push-IsIndexed : IsIndexed a → IsIndexed (push a e)
  unfolding push
  push-IsIndexed v c h =
      let item : JobQueueItem = record { entry = e; index = pos (length a) } in
      ground (
        arith,
        length-push,
        get_or-append a (item ∷ []) c no_item,
        get_or-append_last a item no_item,
        v c,
      )

  push-UpInv : IsHeap (entries a) → UpInv (length (push a e)) (push a e) (length (push a e) - 1)
  push-UpInv h = record {
    inside = omega (arith, length-push);
    bound = omega arith;
    edges = λ c p q r. rw entries-push (
        ground (
          arith,
          length-push,
          length-entries a,
          h c,
          get_or-append (entries a) (e ∷ []) c no_entry,
          get_or-append (entries a) (e ∷ []) (parent c) no_entry,
        ));
    bridged = λ c p q r s. absurd (omega (arith, length-push));
  }

  -- Push adds the entry to a heap.
  pub heap_push-IsHeap :
      IsHeap (entries a)
      → Returns
          (λ b. IsHeap (entries b) × Perm (entries b) (e ∷ entries a) × (IsIndexed a → IsIndexed b))
          (heap_push a e)
  unfolding heap_push
  heap_push-IsHeap h = Returns-map (up_restores _ _ _ (push-UpInv h)) λ b s. (
    rw (length-entries b, s.0.size) s.1,
    Perm.trans (rw entries-push at s.0.same) (Perm.symm (behind-perm (entries a) e)),
    λ v. s.0.indexed (push-IsIndexed v),
  )

module _ (a : List JobQueueItem) (i n : ℕ) (h : IsHeap (entries a)) (size : length a ≡ suc n)
    (inner : i < n) where
  out_size : i < length a
  out_size = omega arith

  last_size : n < length a
  last_size = omega arith

  abbrev gone : List JobQueueItem
  gone = swapped a i n out_size last_size

  -- After the swap only the edges at i may be out of order.
  gone-DownInv : DownInv 0 n gone i i
  gone-DownInv =
      let at = entry_at-swapped a i n out_size last_size in
      record {
        bound = omega (arith, length-swapped a i n out_size last_size);
        sunk = omega arith;
        edges = λ c p q r s t. ground (arith, at c, at (parent c), h c, length-entries a);
        bridged = λ c p q r s t. ground (
          arith,
          at c,
          at (parent i),
          h c,
          h i,
          length-entries a,
          NotAfter-trans (entry_at (entries a) (parent i)) (entry_at (entries a) i)
              (entry_at (entries a) c),
        );
        above = λ p q. absurd (omega arith);
      }

  gone-UpInv : (b : List JobQueueItem) (j : ℕ) → Sunk 0 n gone i b j → j ≡ i → UpInv n b i
  gone-UpInv b j s e = record {
    inside = inner;
    bound = omega (arith, gone-DownInv.bound, s.moved.size);
    edges = λ c p q t. s.edges c p q (omega arith) (inl t);
    bridged = λ c p q r t.
        subst
          (λ (x : List JobQueueItem).
            NotAfter (entry_at (entries x) (parent i)) (entry_at (entries x) c))
          (sym (s.stayed e)) (gone-DownInv.bridged c p q r t (omega arith));
  }

  sift_out-Restored : Returns (Restored n gone) (sift_out a i n)
  unfolding sift_out
  sift_out-Restored = rw (swap-ok a i n out_size last_size) (
      Returns-bind (down-Sunk 0 n gone i gone-DownInv) λ r (j, flag, s).
        Returns-if r.1 (λ moved. returns (s.moved, λ c p q t. s.edges c p q t (inr (ground arith))))
          (λ stayed.
            Returns-map (up_restores n r.0 i (gone-UpInv r.0 j s (ground (arith, s.lower))))
              λ b t. (Moved-trans n gone r.0 b s.moved t.0, t.1)))

  sift_out-Out : Returns (Out a i) (sift_out a i n >>= pop)
  sift_out-Out =
      let first = swapped-Moved a i n out_size last_size (suc n) (omega arith) (omega arith) in
      Returns-bind sift_out-Restored λ b (moved, heap).
        pop-Out n a b i size (moved.size ∙ first.size) (Perm.trans moved.same first.same)
          (λ v. moved.indexed (first.indexed v))
          (moved.kept n (omega arith) ∙ ground (arith, entry_at-swapped a i n out_size last_size n))
          heap

-- Remove takes out the item at any position of a heap.
pub heap_remove-Out :
    (a : List JobQueueItem) (i : ℕ)
    → IsHeap (entries a)
    → i < length a
    → Returns (Out a i) (heap_remove a i)
unfolding heap_remove
heap_remove-Out a i h inside =
    let n = length a - 1 in
    let size : length a ≡ suc n = omega arith in
    elim (Bool-cases (n == i)) [
      | inl e ↦ rw e (
          pop-Out n a a i size refl Perm.rfl (λ v. v) (ground arith)
            (λ c p q r. h c p (omega (arith, length-entries a)) r))
      | inr e ↦ rw e (sift_out-Out a i n h size (ground arith))
    ]
