-- ===== src/CircuitBreaker/Windows.antt =====
-- The failure window, and the breakers that arise from a new one.
use Prim.Native.String.{String}
use iroh_raft.Common.{
  ℕ, ◌<◌, ◌≤◌, ◌≡◌, refl, List, [], ◌∷◌, ◌++◌, some, arith, inl, inr, Bool-cases, length, ltb,
  not_ltb→le, if◌then◌else◌, Outcome,
}
use iroh_raft.CircuitBreaker.{
  closed, opened, CircuitBreaker, CircuitBreakerConfig, new, drop_old, admit, finish, force_open,
  force_close,
}

-- The failures not older than the cutoff, wherever they stand.
unfoldable pub keep_recent : ℕ → List ℕ → List ℕ
keep_recent cutoff [] = []
keep_recent cutoff (t ∷ ts) =
    let rest = keep_recent cutoff ts in if ltb t cutoff then rest else t ∷ rest

-- Times in the order in which they were recorded, from `low` on and up to `now`.
abbrev pub IsOrdered : ℕ → ℕ → List ℕ → Type 0
IsOrdered low now [] = low ≤ now
IsOrdered low now (t ∷ ts) = (low ≤ t) × IsOrdered t now ts

-- What holds of a breaker between two steps.
pub record IsSound (config : CircuitBreakerConfig) (now : ℕ) (cb : CircuitBreaker) : Type 0 where
  pub same_config : cb.config ≡ config
  pub ordered : IsOrdered 0 now cb.recent_failures
  pub below : cb.state ≡ closed → length cb.recent_failures < config.failure_threshold
  pub dated : cb.state ≡ opened → (t : ℕ) × (cb.last_failure_time ≡ some t) × (t ≤ now)

-- The breakers that arise from a new one at a time, in any interleaving of the two parts of `call`, each run without
-- interruption, and the forced transitions, under a clock that does not run backwards.
pub data Reached (T : Type 0) (config : CircuitBreakerConfig) : ℕ → CircuitBreaker → Type 0 where
  started : (now : ℕ) → Reached T config now (new config)
  admitted :
      (t now : ℕ) (cb : CircuitBreaker)
      → Reached T config t cb
      → t ≤ now
      → Reached T config now (admit cb now).0
  finished :
      (t now : ℕ) (cb : CircuitBreaker) (answer : Outcome String T)
      → Reached T config t cb
      → t ≤ now
      → Reached T config now (finish cb now answer).0
  forced_open :
      (t now : ℕ) (cb : CircuitBreaker)
      → Reached T config t cb
      → t ≤ now
      → Reached T config now (force_open cb now)
  forced_close :
      (t now : ℕ) (cb : CircuitBreaker)
      → Reached T config t cb
      → t ≤ now
      → Reached T config now (force_close cb)

keep_recent_all :
    (cutoff low now : ℕ) (ts : List ℕ)
    → cutoff ≤ low
    → IsOrdered low now ts
    → keep_recent cutoff ts ≡ ts
unfolding keep_recent
keep_recent_all cutoff low now [] h o = refl
keep_recent_all cutoff low now (t ∷ ts) h o =
    let rest = keep_recent_all cutoff t now ts (omega (arith, o.0)) o.1 in
    let here = o.0 in ground arith

-- Of ordered failures, cleaning from the front keeps exactly those that are not older than the
-- cutoff.
pub drop_old_lem :
    (cutoff low now : ℕ) (ts : List ℕ)
    → IsOrdered low now ts
    → drop_old cutoff ts ≡ keep_recent cutoff ts
unfolding drop_old keep_recent
drop_old_lem cutoff low now [] o = refl
drop_old_lem cutoff low now (t ∷ ts) o = elim (Bool-cases (ltb t cutoff)) [
  | inl old ↦ rw (old, drop_old_lem cutoff t now ts o.1)
  | inr recent ↦ rw (recent, keep_recent_all cutoff t now ts (not_ltb→le t cutoff recent) o.1)
]

pub IsOrdered-widen :
    (low' low now now' : ℕ) (ts : List ℕ)
    → low' ≤ low
    → now ≤ now'
    → IsOrdered low now ts
    → IsOrdered low' now' ts
IsOrdered-widen low' low now now' [] h k o = omega (arith, o)
IsOrdered-widen low' low now now' (t ∷ ts) h k o =
    (omega (arith, o.0), IsOrdered-widen t t now now' ts (omega arith) k o.1)

pub IsOrdered-drop_old :
    (cutoff low now : ℕ) (ts : List ℕ)
    → IsOrdered low now ts
    → IsOrdered low now (drop_old cutoff ts)
unfolding drop_old
IsOrdered-drop_old cutoff low now [] o = o
IsOrdered-drop_old cutoff low now (t ∷ ts) o = elim (Bool-cases (ltb t cutoff)) [
  | inl old ↦
      rw old
        (IsOrdered-widen low t now now _ o.0 (omega arith) (IsOrdered-drop_old cutoff t now ts o.1))
  | inr recent ↦ rw recent o
]

pub length-drop_old : (cutoff : ℕ) (ts : List ℕ) → length (drop_old cutoff ts) ≤ length ts
unfolding drop_old
length-drop_old cutoff [] = omega arith
length-drop_old cutoff (t ∷ ts) = let rest = length-drop_old cutoff ts in ground arith

pub IsOrdered-append :
    (low t now : ℕ) (ts : List ℕ)
    → IsOrdered low t ts
    → t ≤ now
    → IsOrdered low now (ts ++ (now ∷ []))
IsOrdered-append low t now [] o h = (omega (arith, o), omega arith)
IsOrdered-append low t now (u ∷ ts) o h = (o.0, IsOrdered-append u t now ts o.1 h)
