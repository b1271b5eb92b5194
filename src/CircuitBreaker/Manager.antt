-- ===== src/CircuitBreaker/Manager.antt =====
-- src/circuit_breaker.rs: `CircuitBreakerManager`. A breaker behind an `Arc` is a place in the list of all breakers
-- made so far; `get_breaker` is split where it gives up the lock for reading and waits for the one for writing.
use Prim.Native.String.{String}
use iroh_raft.Common.{
  ℕ, arith, ◌≡◌, ◌≢◌, refl, sym, ap, ◌∙◌, inl, inr, if◌then◌else◌, List, [], ◌∷◌, ◌++◌, length,
  length-append, get_or, Option, none, some, Option-cases, Bool-cases,
}
use iroh_raft.Common.Equality.{string_eq}
use iroh_raft.Common.Maps.{lookup, insert, lookup-insert}
use iroh_raft.CircuitBreaker.{
  CircuitBreaker, CircuitBreakerConfig, CircuitBreakerState, CircuitBreakerMetrics, new,
}

pub record CircuitBreakerManager : Type 0 where
  pub breakers : List (String × ℕ)
  pub made : List CircuitBreaker
  pub default_config : CircuitBreakerConfig

abbrev pub new_manager : CircuitBreakerConfig → CircuitBreakerManager
new_manager config = record { breakers = []; made = []; default_config = config }

-- The first half, with the lock for reading.
unfoldable pub find_breaker : CircuitBreakerManager → String → Option ℕ
find_breaker m service_name = lookup service_name m.breakers

-- The second half: a new breaker goes into the map, with the lock for writing.
unfoldable pub create_breaker : CircuitBreakerManager → String → CircuitBreakerManager × ℕ
create_breaker m service_name =
    let breaker = length m.made in
    (
      record m {
        breakers = insert service_name breaker m.breakers;
        made = m.made ++ (new m.default_config ∷ []);
      },
      breaker,
    )

-- `get_breaker`, where no other task runs between its halves.
unfoldable pub get_breaker : CircuitBreakerManager → String → CircuitBreakerManager × ℕ
unfolding find_breaker create_breaker
get_breaker m service_name = elim (find_breaker m service_name) [
  | some breaker ↦ (m, breaker)
  | none ↦ create_breaker m service_name
]

abbrev pub breaker_at : CircuitBreakerManager → ℕ → CircuitBreaker
breaker_at m breaker = get_or m.made breaker (new m.default_config)

abbrev pub states_of :
    CircuitBreakerManager → List (String × ℕ) → List (String × CircuitBreakerState)
states_of m [] = []
states_of m ((name, breaker) ∷ rest) = (name, (breaker_at m breaker).state) ∷ states_of m rest

abbrev pub get_all_states : CircuitBreakerManager → List (String × CircuitBreakerState)
get_all_states m = states_of m m.breakers

abbrev pub metrics_of :
    CircuitBreakerManager → List (String × ℕ) → List (String × CircuitBreakerMetrics)
metrics_of m [] = []
metrics_of m ((name, breaker) ∷ rest) = (name, (breaker_at m breaker).metrics) ∷ metrics_of m rest

abbrev pub get_all_metrics : CircuitBreakerManager → List (String × CircuitBreakerMetrics)
get_all_metrics m = metrics_of m m.breakers

find_breaker-create_breaker :
    (m : CircuitBreakerManager) (name other : String)
    → find_breaker (create_breaker m name).0 other
      ≡ (if string_eq.beq name other then some (length m.made) else find_breaker m other)
unfolding find_breaker create_breaker
find_breaker-create_breaker m name other = lookup-insert name other (length m.made) m.breakers

found_created :
    (m : CircuitBreakerManager) (name : String)
    → find_breaker (create_breaker m name).0 name ≡ some (create_breaker m name).1
unfolding create_breaker
found_created m name =
    find_breaker-create_breaker m name name ∙ rw ((string_eq.beq_iff name name).1 refl) refl

find_breaker-get_breaker :
    (m : CircuitBreakerManager) (name : String)
    → find_breaker (get_breaker m name).0 name ≡ some (get_breaker m name).1
unfolding get_breaker
find_breaker-get_breaker m name = elim (Option-cases (find_breaker m name)) [
  | inl absent ↦ rw (absent, get_breaker) (found_created m name)
  | inr (breaker, there) ↦ rw (there, get_breaker) there
]

never_both : {n : ℕ} → some n ≡ none → ⊥
never_both h = cc

-- A service that has a breaker keeps it when a breaker is asked for another time, for whatever service.
get_breaker_keeps :
    (m : CircuitBreakerManager) (name other : String) (breaker : ℕ)
    → find_breaker m name ≡ some breaker
    → find_breaker (get_breaker m other).0 name ≡ some breaker
unfolding get_breaker
get_breaker_keeps m name other breaker there = elim (Option-cases (find_breaker m other)) [
  | inr (found, known) ↦ rw (known, get_breaker) there
  | inl absent ↦
      rw (absent, get_breaker)
        (find_breaker-create_breaker m other name ∙ elim (Bool-cases (string_eq.beq other name)) [
          | inl same ↦ absurd (
              never_both (
                sym there
                ∙ ap (find_breaker m) (sym ((string_eq.beq_iff other name).0 same))
                ∙ absent))
          | inr apart ↦ rw apart there
        ])
]

-- The same breaker is returned for a service again, whatever service is asked for in between.
pub get_breaker_stable :
    (m : CircuitBreakerManager) (name other : String)
    → (get_breaker (get_breaker (get_breaker m name).0 other).0 name).1 ≡ (get_breaker m name).1
unfolding get_breaker
get_breaker_stable m name other =
    rw
      (
        get_breaker_keeps (get_breaker m name).0 name other (get_breaker m name).1
            (find_breaker-get_breaker m name),
        get_breaker,
      )
      refl

-- If two tasks have both found no breaker for a service before either has made one, they get two different breakers,
-- and every later caller gets the second one.
pub get_breaker_race :
    (m : CircuitBreakerManager) (name : String)
    → find_breaker m name ≡ none
    → ((create_breaker m name).1 ≢ (create_breaker (create_breaker m name).0 name).1)
      × ((get_breaker (create_breaker (create_breaker m name).0 name).0 name).1
          ≡ (create_breaker (create_breaker m name).0 name).1)
unfolding get_breaker create_breaker
get_breaker_race m name absent = (
  λ (same : (create_breaker m name).1 ≡ (create_breaker (create_breaker m name).0 name).1).
      absurd (omega (arith, same, length-append m.made (new m.default_config ∷ []))),
  rw (found_created (create_breaker m name).0 name, get_breaker) refl,
)
