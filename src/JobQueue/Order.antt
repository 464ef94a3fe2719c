-- ===== src/JobQueue/Order.antt =====
-- The order in which jobs come out, and what a heap of them is. Statements speak of the entries of
-- a list of items, which leave out the positions that the heap writes into the items.
use livekit_agent_sdk_go.Prelude.{
  none, ℕ, ◌≤◌, ◌<◌, ◌≡◌, ◌⊎◌, sym, ap, ◌∙◌, true, false, List, map, arith, length, set,
}
use livekit_agent_sdk_go.Prelude.Exec.{ok}
use livekit_agent_sdk_go.Prelude.Int.{ℤ, pos}
use livekit_agent_sdk_go.Prelude.Arrays.{
  get_or, exchange, length-set, length-exchange, get_elem?-get_or, get_or-set, get_or-exchange,
  set-get_or, map-set, map-get_or, length-map,
}
use livekit_agent_sdk_go.JobQueue.Item.{
  JobQueueItem, Entry, jt_room, comes_before, load, less, swap,
}
use livekit_agent_sdk_go.JobQueue.Heap.{parent}

pub no_entry : Entry
no_entry = record {
  job = record {
    id = "";
    metadata = "";
    job_type = jt_room;
    room_name = none;
    participant_identity = none;
  };
  priority = 0;
  enqueue_time = 0;
  token = "";
  url = "";
}

pub no_item : JobQueueItem
no_item = record { entry = no_entry; index = pos 0 }

abbrev pub entries : List JobQueueItem → List Entry
entries = map (λ x. x.entry)

abbrev pub item_at : List JobQueueItem → ℕ → JobQueueItem
item_at a i = get_or a i no_item

abbrev pub entry_at : List Entry → ℕ → Entry
entry_at e i = get_or e i no_entry

-- x may come out before y: it has a higher priority, or the same one and is no younger.
abbrev pub NotAfter : Entry → Entry → Type 0
NotAfter x y =
    (y.priority < x.priority) ⊎ ((x.priority ≡ y.priority) × (x.enqueue_time ≤ y.enqueue_time))

pub NotAfter-trans : (x y z : Entry) → NotAfter x y → NotAfter y z → NotAfter x z
NotAfter-trans x y z h k = ground arith

pub NotAfter-refl : (x : Entry) → NotAfter x x
NotAfter-refl x = ground arith

pub comes_before→NotAfter :
    (x y : JobQueueItem) → comes_before x y ≡ true → NotAfter x.entry y.entry
unfolding comes_before
comes_before→NotAfter x y h = ground arith

pub not_before→NotAfter : (x y : JobQueueItem) → comes_before x y ≡ false → NotAfter y.entry x.entry
unfolding comes_before
not_before→NotAfter x y h = ground arith

-- The edges of the tree above the positions below n, whose upper ends are at lo or later.
abbrev pub IsHeapFrom : ℕ → ℕ → List Entry → Type 0
IsHeapFrom lo n e =
    (c : ℕ) → 0 < c → c < n → lo ≤ parent c → NotAfter (entry_at e (parent c)) (entry_at e c)

abbrev pub IsHeap : List Entry → Type 0
IsHeap e = IsHeapFrom 0 (length e) e

-- Every item knows its own position.
abbrev pub IsIndexed : List JobQueueItem → Type 0
IsIndexed a = (c : ℕ) → c < length a → (item_at a c).index ≡ pos c

pub entry-item_at : (a : List JobQueueItem) (i : ℕ) → entry_at (entries a) i ≡ (item_at a i).entry
unfolding no_item
entry-item_at a i = map-get_or (λ x. x.entry) a i no_item

pub length-entries : (a : List JobQueueItem) → length (entries a) ≡ length a
length-entries a = length-map (λ x. x.entry) a

pub load-ok : (a : List JobQueueItem) (i : ℕ) → i < length a → load a i ≡ ok (item_at a i)
unfolding load
load-ok a i h = rw (get_elem?-get_or a i no_item h)

-- To tell an item its position changes no entry.
entries-told :
    (a : List JobQueueItem) (i : ℕ) (p : ℤ)
    → entries (set a i (record (item_at a i) { index = p })) ≡ entries a
entries-told a i p =
    map-set (λ x. x.entry) a i _
    ∙ ap (set (entries a) i) (sym (entry-item_at a i))
    ∙ set-get_or (entries a) i no_entry

entries-exchange :
    (a : List JobQueueItem) (i j : ℕ)
    → entries (exchange no_item a i j) ≡ exchange no_entry (entries a) i j
unfolding exchange
entries-exchange a i j = rw (
  map-set (λ x. x.entry) (set a i (item_at a j)) j (item_at a i),
  map-set (λ x. x.entry) a i (item_at a j),
  entry-item_at a i,
  entry-item_at a j,
)

module _ (a : List JobQueueItem) (i j : ℕ) (hi : i < length a) (hj : j < length a) where
  pub less-ok : less a i j ≡ ok (comes_before (item_at a i) (item_at a j))
  unfolding less
  less-ok = rw (get_elem?-get_or a i no_item hi, get_elem?-get_or a j no_item hj)

  exchanged : List JobQueueItem
  exchanged = exchange no_item a i j

  first_told : List JobQueueItem
  first_told = set exchanged i (record (item_at exchanged i) { index = pos i })

  pub swapped : List JobQueueItem
  swapped = set first_told j (record (item_at first_told j) { index = pos j })

  length-exchanged : length exchanged ≡ length a
  unfolding exchanged
  length-exchanged = length-exchange no_item a i j

  length-first_told : length first_told ≡ length a
  unfolding first_told
  length-first_told = length-set exchanged i _ ∙ length-exchanged

  -- A swap within the list does not panic.
  pub swap-ok : swap a i j ≡ ok swapped
  unfolding swap swapped exchanged first_told exchange
  swap-ok = rw (
    get_elem?-get_or a i no_item hi,
    get_elem?-get_or a j no_item hj,
    get_elem?-get_or exchanged i no_item (rw length-exchanged hi),
    get_elem?-get_or first_told j no_item (rw length-first_told hj),
  )

  pub length-swapped : length swapped ≡ length a
  unfolding swapped
  length-swapped = length-set first_told j _ ∙ length-first_told

  -- It exchanges the two entries.
  pub entries-swapped : entries swapped ≡ exchange no_entry (entries a) i j
  unfolding swapped first_told exchanged
  entries-swapped =
      entries-told first_told j (pos j) ∙ entries-told exchanged i (pos i) ∙ entries-exchange a i j

  pub swapped-IsIndexed : IsIndexed a → IsIndexed swapped
  unfolding swapped first_told exchanged
  swapped-IsIndexed v c h = ground (
    arith,
    length-swapped,
    length-first_told,
    length-exchanged,
    get_or-set first_told j c (record (item_at first_told j) { index = pos j }) no_item,
    get_or-set exchanged i c (record (item_at exchanged i) { index = pos i }) no_item,
    get_or-exchange no_item a i j hi hj c,
    v c,
  )
