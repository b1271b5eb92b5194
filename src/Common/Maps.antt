-- ===== src/Common/Maps.antt =====
-- Hash maps of Rust as lists of pairs; the order of the list stands for the order in which the map is
-- walked.
use mathlib.Core.Path.{◌≡◌, refl, subst}
use mathlib.Core.Logic.{inl, inr}
use mathlib.Core.Bool.{Bool}
use mathlib.Core.Option.{Option, none, some}
use mathlib.Core.List.{List, [], ◌∷◌}
use native.Mathlib.Omega.{arith}
use iroh_raft.Common.Tests.{if◌then◌else◌, Bool-cases}
use iroh_raft.Common.Equality.{Eq}

pub some_injective : {V : Type 0} {v w : V} → some v ≡ some w → v ≡ w
some_injective h = cc

module _ {K V : Type 0} ⦃e : Eq K⦄ where
  unfoldable pub lookup : K → List (K × V) → Option V
  lookup k [] = none
  lookup k ((j, v) ∷ m) = if e.beq j k then some v else lookup k m

  unfoldable pub insert : K → V → List (K × V) → List (K × V)
  insert k v [] = (k, v) ∷ []
  insert k v ((j, w) ∷ m) = if e.beq j k then (k, v) ∷ m else (j, w) ∷ insert k v m

  unfoldable pub remove : K → List (K × V) → List (K × V)
  remove k [] = []
  remove k ((j, w) ∷ m) = let rest = remove k m in if e.beq j k then rest else (j, w) ∷ rest

  -- `retain`, by a test on the value.
  unfoldable pub retain : (V → Bool) → List (K × V) → List (K × V)
  retain keep [] = []
  retain keep ((j, w) ∷ m) = let rest = retain keep m in if keep w then (j, w) ∷ rest else rest

  pub lookup-insert :
      (k j : K) (v : V) (m : List (K × V))
      → lookup j (insert k v m) ≡ (if e.beq k j then some v else lookup j m)
  unfolding lookup insert
  lookup-insert k j v [] = refl
  lookup-insert k j v ((i, w) ∷ m) =
      ground (arith, e.beq_iff k j, e.beq_iff i k, e.beq_iff i j, lookup-insert k j v m)

  pub lookup-remove :
      (k j : K) (m : List (K × V))
      → lookup j (remove k m) ≡ (if e.beq k j then none else lookup j m)
  unfolding lookup remove
  lookup-remove k j [] = ground arith
  lookup-remove k j ((i, w) ∷ m) =
      ground (arith, e.beq_iff k j, e.beq_iff i k, e.beq_iff i j, lookup-remove k j m)

  -- Every pair of the map is as `P` says.
  abbrev pub AllPairs : (K → V → Type 0) → List (K × V) → Type 0
  AllPairs P [] = Unit
  AllPairs P ((k, v) ∷ m) = P k v × AllPairs P m

  module _ (P : K → V → Type 0) where
    pub AllPairs-lookup :
        (k : K) (v : V) (m : List (K × V)) → AllPairs P m → lookup k m ≡ some v → P k v
    unfolding lookup
    AllPairs-lookup k v [] h found = absurd cc
    AllPairs-lookup k v ((j, w) ∷ m) h found = elim (Bool-cases (e.beq j k)) [
      | inl same ↦
          let here : some w ≡ some v = rw same at found in
          subst (λ i. P i v) ((e.beq_iff j k).0 same) (subst (P j) (some_injective here) h.0)
      | inr other ↦ AllPairs-lookup k v m h.1 (rw other at found)
    ]

    pub AllPairs-insert :
        (k : K) (v : V) (m : List (K × V)) → AllPairs P m → P k v → AllPairs P (insert k v m)
    unfolding insert
    AllPairs-insert k v [] h new = (new, tt)
    AllPairs-insert k v ((j, w) ∷ m) h new = elim (Bool-cases (e.beq j k)) [
      | inl same ↦ rw same (new, h.1)
      | inr other ↦ rw other (h.0, AllPairs-insert k v m h.1 new)
    ]

    pub AllPairs-remove : (k : K) (m : List (K × V)) → AllPairs P m → AllPairs P (remove k m)
    unfolding remove
    AllPairs-remove k [] h = tt
    AllPairs-remove k ((j, w) ∷ m) h = elim (Bool-cases (e.beq j k)) [
      | inl same ↦ rw same (AllPairs-remove k m h.1)
      | inr other ↦ rw other (h.0, AllPairs-remove k m h.1)
    ]

    pub AllPairs-retain :
        (keep : V → Bool) (m : List (K × V)) → AllPairs P m → AllPairs P (retain keep m)
    unfolding retain
    AllPairs-retain keep [] h = tt
    AllPairs-retain keep ((j, w) ∷ m) h = elim (Bool-cases (keep w)) [
      | inl kept ↦ rw kept (h.0, AllPairs-retain keep m h.1)
      | inr gone ↦ rw gone (AllPairs-retain keep m h.1)
    ]
