-- ===== src/Common/Results.antt =====
-- `Result<T, E>` of Rust, with `?` as the bind of a `do` block.
use mathlib.Core.Path.{◌≡◌, refl, ap}
use mathlib.Core.Bool.{Bool, true, false}
use mathlib.Core.Logic.{◌⊎◌, inl, inr}

pub data Outcome {ℓ κ} (E : Type κ) (T : Type ℓ) : Type (ℓ ⊔ κ) where
  ok : T → Outcome E T
  err : E → Outcome E T

-- An early `return Err(why)` where the test holds.
abbrev pub fail_if {μ} : {E : Type μ} → Bool → E → Outcome E (Unit {0})
fail_if broken why = elim broken [ true ↦ err why | false ↦ ok tt ]

module _ {ℓ μ} {E : Type μ} {T : Type ℓ} where
  abbrev pub map_err {ν} : {F : Type ν} → (E → F) → Outcome E T → Outcome F T
  map_err wrap m = elim m [ ok t ↦ ok t | err why ↦ err (wrap why) ]

  pub Outcome-cases : (m : Outcome E T) → ((t : T) × (m ≡ ok t)) ⊎ ((why : E) × (m ≡ err why))
  Outcome-cases (ok t) = inl (t, refl)
  Outcome-cases (err why) = inr (why, refl)

  infixl 5 ◌>>=◌ ◌>>◌
  abbrev pub ◌>>=◌ {κ} : {U : Type κ} → Outcome E T → (T → Outcome E U) → Outcome E U
  ◌>>=◌ m next = elim m [ err why ↦ err why | ok t ↦ next t ]

  abbrev pub ◌>>◌ : Outcome E (Unit {0}) → Outcome E T → Outcome E T
  ◌>>◌ check next = elim check [ err why ↦ err why | ok _ ↦ next ]

-- A chain that succeeds has a first step that does.
pub >>=-eq_ok {ℓ κ μ} :
    {E : Type μ} {T : Type ℓ} {U : Type κ} (m : Outcome E T) (next : T → Outcome E U) (u : U)
    → (m >>= next) ≡ ok u
    → (t : T) × (m ≡ ok t) × (next t ≡ ok u)
>>=-eq_ok (ok t) next u h = (t, refl, h)
>>=-eq_ok (err why) next u h = absurd cc

pub ok_injective {ℓ μ} :
    {E : Type μ} {T : Type ℓ} {t u : T} → ◌≡◌ {A = Outcome E T} (ok t) (ok u) → t ≡ u
ok_injective h = cc

pub map_err_ok {ℓ κ μ} :
    {E : Type κ} {F : Type μ} {T : Type ℓ} (wrap : E → F) (m : Outcome E T) (t : T)
    → map_err wrap m ≡ ok t
    → m ≡ ok t
map_err_ok wrap (ok u) t h = ap ok (ok_injective h)
map_err_ok wrap (err why) t h = absurd cc

-- A chain that succeeds passes each of its early returns.
pub fail_if-eq_ok {ℓ μ} :
    {E : Type μ} {T : Type ℓ} (broken : Bool) (why : E) (next : Outcome E T) (t : T)
    → (fail_if broken why >> next) ≡ ok t
    → (broken ≡ false) × (next ≡ ok t)
fail_if-eq_ok true why next t h = absurd cc
fail_if-eq_ok false why next t h = (refl, h)

pub >>-eq_ok {ℓ μ} :
    {E : Type μ} {T : Type ℓ} (check : Outcome E (Unit {0})) (next : Outcome E T) (t : T)
    → (check >> next) ≡ ok t
    → (check ≡ ok tt) × (next ≡ ok t)
>>-eq_ok (ok done) next t h = (refl, h)
>>-eq_ok (err why) next t h = absurd cc
