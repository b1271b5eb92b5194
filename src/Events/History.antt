-- ===== src/Events/History.antt =====
-- src/management/events.rs: the history holds the most recent events.
use iroh_raft.Common.{
  ℕ, arith, ◌+◌, ◌-◌, ◌≡◌, refl, sym, ap, ◌∙◌, ltb, min, Bool-cases, inl, inr, if◌then◌else◌, List,
  [], ◌∷◌, ◌++◌, length, drop, length-append, length-drop, drop-drop, drop-nil, drop-append_le,
  append_assoc, append-nil, not_ltb→le,
}
use iroh_raft.Events.{ClusterEvent, EventHistory, new_history, add_event, recent_events}

-- The last `n` elements.
abbrev pub latest : {A : Type 0} → ℕ → List A → List A
latest n xs = drop (length xs - n) xs

drop_or_all :
    {A : Type 0} (n : ℕ) (xs : List A)
    → (if ltb n (length xs) then latest n xs else xs) ≡ latest n xs
drop_or_all n xs = elim (Bool-cases (ltb n (length xs))) [
  | inl more ↦ rw more refl
  | inr fewer ↦
      let none_over : length xs - n ≡ 0 = omega (arith, not_ltb→le n (length xs) fewer) in
      rw (fewer, none_over) refl
]

drop_from_start :
    {A : Type 0} (n : ℕ) (xs : List A)
    → drop (if ltb n (length xs) then length xs - n else 0) xs ≡ latest n xs
drop_from_start n xs = elim (Bool-cases (ltb n (length xs))) [
  | inl more ↦ rw more refl
  | inr fewer ↦
      let none_over : length xs - n ≡ 0 = omega (arith, not_ltb→le n (length xs) fewer) in
      rw (fewer, none_over) refl
]

latest-append :
    {A : Type 0} (n : ℕ) (xs : List A) (x : A)
    → latest n (latest n xs ++ (x ∷ [])) ≡ latest n (xs ++ (x ∷ []))
latest-append n xs x =
    let ys = xs ++ (x ∷ []) in
    let d = length xs - n in
    let long = length-append xs (x ∷ []) in
    let inside : drop d xs ++ (x ∷ []) ≡ drop d ys =
      sym (drop-append_le d xs (x ∷ []) (omega arith)) in
    let k = length (drop d ys) - n in
    let total : d + k ≡ length ys - n = omega (arith, length-drop d ys, long) in
    ap (latest n) inside ∙ sym (drop-drop k d ys) ∙ ap (λ (j : ℕ). drop j ys) total

module _ {Json : Type 0} where
  -- Events added one after the other.
  unfoldable pub add_all : EventHistory Json → List (ClusterEvent Json) → EventHistory Json
  unfolding add_event
  add_all h [] = h
  add_all h (event ∷ events) = add_all (add_event Json h event) events

  events-add_event :
      (h : EventHistory Json) (event : ClusterEvent Json)
      → (add_event Json h event).events ≡ latest h.max_events (h.events ++ (event ∷ []))
  unfolding add_event
  events-add_event h event = drop_or_all h.max_events (h.events ++ (event ∷ []))

  events-add_all :
      (h : EventHistory Json) (before events : List (ClusterEvent Json))
      → h.events ≡ latest h.max_events before
      → ((add_all h events).events ≡ latest h.max_events (before ++ events))
        × ((add_all h events).max_events ≡ h.max_events)
  unfolding add_all add_event
  events-add_all h before [] same =
      (same ∙ ap (latest h.max_events) (sym (append-nil before)), refl)
  events-add_all h before (event ∷ events) same =
      let stepped : (add_event Json h event).events ≡ latest h.max_events (before ++ (event ∷ [])) =
        events-add_event h event
        ∙ ap (λ (es : List (ClusterEvent Json)). latest h.max_events (es ++ (event ∷ []))) same
        ∙ latest-append h.max_events before event in
      let (kept, capacity) =
        events-add_all (add_event Json h event) (before ++ (event ∷ [])) events stepped in
      (kept ∙ ap (latest h.max_events) (append_assoc before (event ∷ []) events), capacity)

  latest-latest :
      (n m : ℕ) (xs : List (ClusterEvent Json)) → latest n (latest m xs) ≡ latest (min n m) xs
  latest-latest n m xs =
      let d = length xs - m in
      let k = length (drop d xs) - n in
      let total : d + k ≡ length xs - min n m = omega (arith, length-drop d xs) in
      sym (drop-drop k d xs) ∙ ap (λ (j : ℕ). drop j xs) total

  -- After any events have been added to a new history, its recent events, for whatever count, are the latest of all the
  -- events added, in order: as many as the smaller of the count and the history's maximum, or all if there are fewer.
  pub recent_events-add_all :
      (max_events count : ℕ) (events : List (ClusterEvent Json))
      → recent_events Json (add_all (new_history Json max_events) events) count
        ≡ latest (min count max_events) events
  unfolding recent_events
  recent_events-add_all max_events count events =
      let (kept, _) =
        events-add_all (new_history Json max_events) [] events (sym (drop-nil (0 - max_events))) in
      drop_from_start count (add_all (new_history Json max_events) events).events
      ∙ ap (latest count) kept
      ∙ latest-latest count max_events events
