-- ===== src/Events/Streams.antt =====
-- src/management/events.rs: what a filter lets through, and what a stream yields.
use iroh_raft.Common.{
  ◌≡◌, refl, ap, ◌⊎◌, inl, inr, true, false, Bool-cases, List, [], ◌∷◌, ◌++◌, All, Option, none,
  some,
}
use iroh_raft.Common.Equality.{nat_eq, string_eq}
use iroh_raft.Events.{ClusterEvent, EventFilter, EventStream, matches, next_match, try_next}

module _ {Json : Type 0} where
  -- The events up to the first match are skipped, and it is the result; if none matches, all are.
  pub record IsNext (filter : EventFilter) (events left : List (ClusterEvent Json))
      (found : Option (ClusterEvent Json)) : Type 0 where
    pub skipped : List (ClusterEvent Json)
    pub none_match : All (λ (e : ClusterEvent Json). matches Json filter e ≡ false) skipped
    pub split :
        ((found ≡ none) × (left ≡ []) × (events ≡ skipped))
        ⊎ ((event : ClusterEvent Json) × (found ≡ some event)
            × (matches Json filter event ≡ true)
            × (events ≡ skipped ++ (event ∷ left)))

  next_match-IsNext :
      (filter : EventFilter) (events : List (ClusterEvent Json))
      → IsNext filter events (next_match Json filter events).0 (next_match Json filter events).1
  unfolding next_match
  next_match-IsNext filter [] = record {
    skipped = [];
    none_match = tt;
    split = inl (refl, refl, refl);
  }
  next_match-IsNext filter (event ∷ events) = elim (Bool-cases (matches Json filter event)) [
    | inl fits ↦
        rw (fits, next_match)
          (record { skipped = []; none_match = tt; split = inr (event, refl, fits, refl) })
    | inr other ↦
        let rest = next_match-IsNext filter events in
        rw (other, next_match)
          (record {
            skipped = event ∷ rest.skipped;
            none_match = (other, rest.none_match);
            split = elim rest.split [
              | inl (nothing, empty, same) ↦ inl (nothing, empty, ap (◌∷◌ event) same)
              | inr (found, it, fits, same) ↦ inr (found, it, fits, ap (◌∷◌ event) same)
            ];
          })
  ]

  -- A stream yields the first of the events still to come that its filter matches; the ones before it, which do not match, are dropped, and the
  -- ones after it stay; if no event matches, all are dropped and there is no result.
  pub try_next-IsNext :
      (s : EventStream Json)
      → IsNext s.filter s.receiver (try_next Json s).0.receiver (try_next Json s).1
  try_next-IsNext s = next_match-IsNext s.filter s.receiver
