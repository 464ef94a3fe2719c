-- ===== src/TimingManager/Window.antt =====
-- The sliding window of BackpressureController (pkg/agent/timing_manager.go), against the list of all
-- events.
use livekit_agent_sdk_go.Prelude.{
  ℕ, suc, zero, ◌+◌, ◌≤◌, ◌≡◌, refl, inl, inr, Bool, Bool-cases, Option-cases, ap, ◌∙◌, true, false,
  List, [], ◌∷◌, ◌++◌, arith, leb, ◌==◌, if◌then◌else◌, length, get_elem?, All, if_cases,
}
use livekit_agent_sdk_go.Prelude.Int.{ℤ, ◌-ℤ◌, ltb_ℤ, ◌≤ℤ◌, -ℤ_parts}
use livekit_agent_sdk_go.TimingManager.Backpressure.{
  BackpressureController, new_backpressure_controller, cut_old, cleanup, record_event, count_back,
  current_rate, should_apply_backpressure,
}

-- How many entries of a list are after the cutoff, in whatever order they stand.
unfoldable pub after : ℤ → List ℤ → ℕ
after cutoff [] = 0
after cutoff (e ∷ es) = if ltb_ℤ cutoff e then suc (after cutoff es) else after cutoff es

-- The times do not decrease.
abbrev pub Ascending : List ℤ → Type 0
Ascending [] = Unit
Ascending (e ∷ es) = All (λ x. e ≤ℤ x) es × Ascending es

count_step :
    (r n : ℕ) (b : Bool)
    → suc (if r == n then (if b then suc n else n) else r)
      ≡ (if suc r == suc n then (if b then suc (suc n) else suc n) else suc r)
count_step r n b = ground arith

zero_step : (n a : ℕ) → 0 ≡ (if 0 == suc n then a else 0)
zero_step n a = ground arith

count_back-cons :
    (cutoff x : ℤ) (xs : List ℤ) (n : ℕ)
    → count_back cutoff (x ∷ xs) (suc n) ≡ (
        if count_back cutoff xs n == n
        then (if ltb_ℤ cutoff x then suc n else n)
        else count_back cutoff xs n)
unfolding count_back
count_back-cons cutoff x xs zero = ground arith
count_back-cons cutoff x xs (suc n) = elim (Option-cases (get_elem? xs n)) [
  | inl e ↦ rw e (zero_step n _)
  | inr (y, e) ↦ elim (Bool-cases (ltb_ℤ cutoff y)) [
    | inl h ↦
        rw (e, h)
          (ap suc (count_back-cons cutoff x xs n)
            ∙ count_step (count_back cutoff xs n) n (ltb_ℤ cutoff x))
    | inr h ↦ rw (e, h) (zero_step n _)
  ]
]

count_newer :
    (cutoff e : ℤ) (es : List ℤ)
    → ltb_ℤ cutoff e ≡ true
    → All (λ x. e ≤ℤ x) es
    → after cutoff es ≡ length es
unfolding after
count_newer cutoff e [] h a = refl
count_newer cutoff e (x ∷ es) h a = ground (arith, count_newer cutoff e es h a.1)

after-le : (cutoff : ℤ) (es : List ℤ) → after cutoff es ≤ length es
unfolding after
after-le cutoff [] = omega arith
after-le cutoff (e ∷ es) = ground (arith, after-le cutoff es)

-- On times that do not decrease, the loop that stops at the first old one counts them all.
pub count_back-after :
    (cutoff : ℤ) (es : List ℤ) → Ascending es → count_back cutoff es (length es) ≡ after cutoff es
unfolding count_back after
count_back-after cutoff [] a = refl
count_back-after cutoff (e ∷ es) a =
    count_back-cons cutoff e es (length es)
    ∙ rw (count_back-after cutoff es a.1) (elim (Bool-cases (ltb_ℤ cutoff e)) [
      | inl h ↦ rw (h, count_newer cutoff e es h a.0) (ground arith)
      | inr h ↦ rw h (ground arith)
    ])

All-snoc : (P : ℤ → Type 0) (es : List ℤ) (t : ℤ) → All P es → P t → All P (es ++ t ∷ [])
All-snoc P [] t a h = (h, tt)
All-snoc P (e ∷ es) t a h = (a.0, All-snoc P es t a.1 h)

Ascending-snoc :
    (es : List ℤ) (t : ℤ) → Ascending es → All (λ x. x ≤ℤ t) es → Ascending (es ++ t ∷ [])
Ascending-snoc [] t a h = (tt, tt)
Ascending-snoc (e ∷ es) t a h = (All-snoc (λ x. e ≤ℤ x) es t a.0 h.0, Ascending-snoc es t a.1 h.1)

after-snoc :
    (cutoff : ℤ) (es : List ℤ) (t : ℤ)
    → after cutoff (es ++ t ∷ []) ≡ after cutoff es + after cutoff (t ∷ [])
unfolding after
after-snoc cutoff [] t = omega arith
after-snoc cutoff (e ∷ es) t = ground (arith, after-snoc cutoff es t)

All-cut_old : (P : ℤ → Type 0) (cutoff : ℤ) (es : List ℤ) → All P es → All P (cut_old cutoff es)
unfolding cut_old
All-cut_old P cutoff [] a = tt
All-cut_old P cutoff (e ∷ es) a = if_cases (All P) (ltb_ℤ e cutoff) (All-cut_old P cutoff es a.1) a

Ascending-cut_old : (cutoff : ℤ) (es : List ℤ) → Ascending es → Ascending (cut_old cutoff es)
unfolding cut_old
Ascending-cut_old cutoff [] a = tt
Ascending-cut_old cutoff (e ∷ es) a =
    if_cases Ascending (ltb_ℤ e cutoff) (Ascending-cut_old cutoff es a.1) a

before_both : (early late e : ℤ) → early ≤ℤ late → ltb_ℤ e early ≡ true → ltb_ℤ late e ≡ false
before_both early late e h old = ground arith

-- What an earlier cutoff removes is not counted by a later one.
after-cut_old :
    (early late : ℤ) (es : List ℤ) → early ≤ℤ late → after late (cut_old early es) ≡ after late es
unfolding after cut_old
after-cut_old early late [] h = refl
after-cut_old early late (e ∷ es) h = elim (Bool-cases (ltb_ℤ e early)) [
  | inl old ↦ rw (old, before_both early late e h old) (after-cut_old early late es h)
  | inr new ↦ rw new refl
]

unfoldable pub record_all : List ℤ → BackpressureController → BackpressureController
record_all [] b = b
record_all (t ∷ ts) b = record_all ts (record_event t b)

-- The events in order, none after the given time.
abbrev IsCurrent : ℤ → BackpressureController → Type 0
IsCurrent last b = Ascending b.events × All (λ x. x ≤ℤ last) b.events

All-later : (last t : ℤ) (es : List ℤ) → last ≤ℤ t → All (λ x. x ≤ℤ last) es → All (λ x. x ≤ℤ t) es
All-later last t [] h a = tt
All-later last t (e ∷ es) h a = (omega (arith, a.0), All-later last t es h a.1)

record_event-IsCurrent :
    (last t : ℤ) (b : BackpressureController)
    → last ≤ℤ t
    → IsCurrent last b
    → IsCurrent t (record_event t b)
unfolding record_event cleanup
record_event-IsCurrent last t b h c =
    let up = Ascending-snoc b.events t c.0 (All-later last t b.events h c.1) in
    let bounded =
      All-snoc (λ x. x ≤ℤ t) b.events t (All-later last t b.events h c.1) (omega arith) in
    if_cases (IsCurrent t) (ltb_ℤ b.window (t -ℤ b.last_cleanup))
      (Ascending-cut_old _ _ up, All-cut_old (λ x. x ≤ℤ t) _ _ bounded) (up, bounded)

window-record_event : (t : ℤ) (b : BackpressureController) → (record_event t b).window ≡ b.window
unfolding record_event cleanup
window-record_event t b = ground arith

limit-record_event : (t : ℤ) (b : BackpressureController) → (record_event t b).limit ≡ b.limit
unfolding record_event cleanup
limit-record_event t b = ground arith

after-record_event :
    (t now : ℤ) (b : BackpressureController)
    → t ≤ℤ now
    → after (now -ℤ b.window) (record_event t b).events
      ≡ after (now -ℤ b.window) b.events + after (now -ℤ b.window) (t ∷ [])
unfolding record_event cleanup
after-record_event t now b h =
    if_cases {A = BackpressureController}
      (λ c.
        after (now -ℤ b.window) c.events
        ≡ after (now -ℤ b.window) b.events + after (now -ℤ b.window) (t ∷ []))
      (ltb_ℤ b.window (t -ℤ b.last_cleanup))
      (after-cut_old (t -ℤ b.window) (now -ℤ b.window) (b.events ++ t ∷ [])
          (omega (arith, -ℤ_parts t b.window, -ℤ_parts now b.window))
        ∙ after-snoc (now -ℤ b.window) b.events t)
      (after-snoc (now -ℤ b.window) b.events t)

rate-record_all :
    (last now : ℤ) (ts : List ℤ) (b : BackpressureController)
    → IsCurrent last b
    → All (λ t. last ≤ℤ t) ts
    → Ascending ts
    → All (λ t. t ≤ℤ now) ts
    → current_rate now (record_all ts b)
      ≡ after (now -ℤ b.window) b.events + after (now -ℤ b.window) ts
unfolding current_rate record_all after
rate-record_all last now [] b c lo a hi =
    count_back-after (now -ℤ b.window) b.events c.0 ∙ omega arith
rate-record_all last now (t ∷ ts) b c lo a hi =
    rate-record_all t now ts (record_event t b) (record_event-IsCurrent last t b lo.0 c) a.0 a.1
      hi.1
    ∙ rw (window-record_event t b, after-record_event t now b hi.0) (ground arith)

limit-record_all : (ts : List ℤ) (b : BackpressureController) → (record_all ts b).limit ≡ b.limit
unfolding record_all
limit-record_all [] b = refl
limit-record_all (t ∷ ts) b = limit-record_all ts (record_event t b) ∙ limit-record_event t b

-- A controller that has recorded events, at times that do not decrease and are not after now,
-- applies backpressure exactly if at least as many of them as the limit lie in the window that ends
-- now. It does not matter when the controller threw old events away.
pub backpressure_exact :
    (window start now : ℤ) (limit : ℕ) (ts : List ℤ)
    → Ascending ts
    → All (λ t. t ≤ℤ now) ts
    → should_apply_backpressure now (record_all ts (new_backpressure_controller window limit start))
      ≡ leb limit (after (now -ℤ window) ts)
unfolding should_apply_backpressure new_backpressure_controller after current_rate count_back
    record_all
backpressure_exact window start now limit [] a hi = refl
backpressure_exact window start now limit (t ∷ ts) a hi =
    let b = new_backpressure_controller window limit start in
    rw (limit-record_all (t ∷ ts) b) (
      ap (λ n. leb limit n)
        (rate-record_all t now (t ∷ ts) b (tt, tt) (omega arith, a.0) a hi ∙ omega arith))
