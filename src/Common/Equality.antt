-- ===== src/Common/Equality.antt =====
-- Equality tests on keys and elements, and the lists that contain an element.
use Prim.Native.Nat.{ℕ}
use Prim.Native.String.{String}
use text.Mathlib.Text.{◌==◌ as str_eq}
use text.Mathlib.TextEquality.{eq_iff}
use mathlib.Core.Path.{◌≡◌, refl}
use mathlib.Core.Logic.{◌↔◌, ◌⊎◌, inl, inr}
use mathlib.Core.Bool.{Bool, true, false, ◌||◌}
use mathlib.Core.List.{List, [], ◌∷◌}
use iroh_raft.Common.Tests.{◌==◌ as nat_beq, ==→eq, eq→==, Bool-cases}

pub record Eq (K : Type 0) : Type 0 where
  pub beq : K → K → Bool
  pub beq_iff : (a b : K) → (beq a b ≡ true) ↔ (a ≡ b)

pub nat_beq_iff : (a b : ℕ) → (nat_beq a b ≡ true) ↔ (a ≡ b)
nat_beq_iff a b = (==→eq a b, eq→== a b)

instance abbrev pub nat_eq : Eq ℕ
nat_eq = record { beq = nat_beq; beq_iff = nat_beq_iff }

instance abbrev pub string_eq : Eq String
string_eq = record { beq = str_eq; beq_iff = eq_iff }

-- The element stands in the list.
abbrev pub In : {A : Type 0} → A → List A → Type 0
In a [] = ⊥
In a (x ∷ xs) = (x ≡ a) ⊎ In a xs

module _ {A : Type 0} ⦃e : Eq A⦄ where
  -- `contains` of a slice.
  abbrev pub contains : A → List A → Bool
  contains a [] = false
  contains a (x ∷ xs) = e.beq x a || contains a xs

  pub contains-In : (a : A) (xs : List A) → (contains a xs ≡ true) ↔ In a xs
  contains-In a [] = ((λ h. absurd cc), (λ h. absurd h))
  contains-In a (x ∷ xs) =
      let rest = contains-In a xs in
      (
        (λ h. elim (Bool-cases (e.beq x a)) [
          | inl same ↦ inl ((e.beq_iff x a).0 same)
          | inr other ↦ inr (rest.0 (rw other at h))
        ]),
        (λ h. elim h [
          | inl same ↦ rw ((e.beq_iff x a).1 same) refl
          | inr later ↦ elim (Bool-cases (e.beq x a)) [
            | inl same ↦ rw same refl
            | inr other ↦ rw other (rest.1 later)
          ]
        ]),
      )
