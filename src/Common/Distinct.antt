-- ===== src/Common/Distinct.antt =====
-- Maps in which no key stands twice.
use Prim.Native.Nat.{◌+◌}
use mathlib.Core.Path.{◌≡◌, refl, sym, ap, ◌∙◌}
use mathlib.Core.Logic.{inl, inr}
use mathlib.Core.Bool.{Bool, false}
use mathlib.Core.Option.{none, some}
use mathlib.Core.List.{List, [], ◌∷◌}
use native.Mathlib.Omega.{arith}
use iroh_raft.Common.Tests.{Bool-cases}
use iroh_raft.Common.Lists.{length}
use iroh_raft.Common.Equality.{Eq}
use iroh_raft.Common.Maps.{lookup, insert, remove, retain, lookup-insert, lookup-remove}

not_same : {K : Type 0} ⦃e : Eq K⦄ (k j : K) → e.beq j k ≡ false → e.beq k j ≡ false
not_same {K} ⦃e⦄ k j other = ground (arith, e.beq_iff k j, e.beq_iff j k)

module _ {K V : Type 0} ⦃e : Eq K⦄ where
  -- No key stands twice.
  abbrev pub Distinct : List (K × V) → Type 0
  Distinct [] = Unit
  Distinct ((k, v) ∷ m) = (lookup k m ≡ none) × Distinct m

  pub Distinct-insert : (k : K) (v : V) (m : List (K × V)) → Distinct m → Distinct (insert k v m)
  unfolding insert lookup
  Distinct-insert k v [] h = (refl, tt)
  Distinct-insert k v ((j, w) ∷ m) (fresh, rest) = elim (Bool-cases (e.beq j k)) [
    | inl same ↦ rw same (ap (λ (i : K). lookup i m) (sym ((e.beq_iff j k).0 same)) ∙ fresh, rest)
    | inr other ↦
        rw other (lookup-insert k j v m ∙ rw (not_same k j other) fresh, Distinct-insert k v m rest)
  ]

  pub length-insert_new :
      (k : K) (v : V) (m : List (K × V)) → lookup k m ≡ none → length (insert k v m) ≡ length m + 1
  unfolding insert lookup
  length-insert_new k v [] h = refl
  length-insert_new k v ((j, w) ∷ m) h = ground (arith, h, length-insert_new k v m)

  pub length-insert_old :
      (k : K) (v w : V) (m : List (K × V)) → lookup k m ≡ some w → length (insert k v m) ≡ length m
  unfolding insert lookup
  length-insert_old k v w [] h = absurd cc
  length-insert_old k v w ((j, u) ∷ m) h = ground (arith, h, length-insert_old k v w m)

  pub remove_absent : (k : K) (m : List (K × V)) → lookup k m ≡ none → remove k m ≡ m
  unfolding remove lookup
  remove_absent k [] h = refl
  remove_absent k ((j, u) ∷ m) h = ground (arith, h, remove_absent k m)

  pub length-remove_old :
      (k : K) (w : V) (m : List (K × V))
      → Distinct m
      → lookup k m ≡ some w
      → length (remove k m) + 1 ≡ length m
  unfolding remove lookup
  length-remove_old k w [] h found = absurd cc
  length-remove_old k w ((j, u) ∷ m) (fresh, rest) found = elim (Bool-cases (e.beq j k)) [
    | inl same ↦
        let gone : remove k m ≡ m =
          remove_absent k m (ap (λ (i : K). lookup i m) (sym ((e.beq_iff j k).0 same)) ∙ fresh) in
        rw (same, gone) (omega arith)
    | inr other ↦ rw other (omega (arith, length-remove_old k w m rest (rw other at found)))
  ]

  pub Distinct-remove : (k : K) (m : List (K × V)) → Distinct m → Distinct (remove k m)
  unfolding remove lookup
  Distinct-remove k [] h = tt
  Distinct-remove k ((j, w) ∷ m) (fresh, rest) = elim (Bool-cases (e.beq j k)) [
    | inl same ↦ rw same (Distinct-remove k m rest)
    | inr other ↦
        rw other (lookup-remove k j m ∙ rw (not_same k j other) fresh, Distinct-remove k m rest)
  ]

  pub lookup-retain-none :
      (keep : V → Bool) (k : K) (m : List (K × V))
      → lookup k m ≡ none
      → lookup k (retain keep m) ≡ none
  unfolding retain lookup
  lookup-retain-none keep k [] h = refl
  lookup-retain-none keep k ((j, w) ∷ m) h = ground (arith, h, lookup-retain-none keep k m)

  pub Distinct-retain : (keep : V → Bool) (m : List (K × V)) → Distinct m → Distinct (retain keep m)
  unfolding retain lookup
  Distinct-retain keep [] h = tt
  Distinct-retain keep ((j, w) ∷ m) (fresh, rest) = elim (Bool-cases (keep w)) [
    | inl kept ↦ rw kept (lookup-retain-none keep j m fresh, Distinct-retain keep m rest)
    | inr gone ↦ rw gone (Distinct-retain keep m rest)
  ]
