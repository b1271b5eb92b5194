-- ===== src/StateMachine/Store.antt =====
-- The key-value store against the map that it stands for.
use Prim.Native.String.{String}
use text.Mathlib.Text.{◌==◌ as str_eq}
use text.Mathlib.TextEquality.{eq_iff}
use text.Mathlib.TextPositions.{eq_refl}
use iroh_raft.Common.{
  ℕ, ◌≡◌, refl, sym, ap, ◌∙◌, true, false, [], ◌∷◌, Option, none, some, inl, inr, if◌then◌else◌,
  Bool-cases,
}
use iroh_raft.StateMachine.{
  HashMap, get, insert, remove, KvCommand, set, delete, clear, KvState, apply_kv,
}

-- What a command does to the value of a key.
unfoldable pub effect : KvCommand → String → Option String → Option String
effect (set key v) k old = if str_eq key k then some v else old
effect (delete key) k old = if str_eq key k then none else old
effect clear k old = none

-- No key stands twice.
abbrev pub IsUnique : HashMap → Type 0
IsUnique [] = Unit
IsUnique ((k, v) ∷ rest) = (get rest k ≡ none) × IsUnique rest

str_eq_comm_false : (a b : String) → str_eq a b ≡ false → str_eq b a ≡ false
str_eq_comm_false a b h = elim (Bool-cases (str_eq b a)) [
  | inl same ↦
      let equal = (eq_iff b a).0 same in
      let both : str_eq a b ≡ true = ap (str_eq a) equal ∙ eq_refl a in absurd cc
  | inr other ↦ other
]

pub get-insert :
    (m : HashMap) (key v k : String)
    → get (insert m key v) k ≡ (if str_eq key k then some v else get m k)
unfolding get insert
get-insert [] key v k = refl
get-insert ((k₀, v₀) ∷ rest) key v k = elim (Bool-cases (str_eq k₀ key)) [
  | inl same ↦
      let equal = (eq_iff k₀ key).0 same in
      elim (Bool-cases (str_eq key k)) [
        | inl here ↦ rw (same, equal, here) refl
        | inr there ↦ rw (same, equal, there) refl
      ]
  | inr other ↦ elim (Bool-cases (str_eq k₀ k)) [
    | inl here ↦
        let equal = (eq_iff k₀ k).0 here in
        let apart : str_eq key k ≡ false =
          ap (str_eq key) (sym equal) ∙ str_eq_comm_false k₀ key other in
        rw (other, here, apart) refl
    | inr there ↦ rw (other, there) (get-insert rest key v k)
  ]
]

pub get-remove :
    (m : HashMap) (key k : String) → get (remove m key) k ≡ (if str_eq key k then none else get m k)
unfolding get remove
get-remove [] key k = elim (Bool-cases (str_eq key k)) [
  | inl here ↦ rw here refl
  | inr there ↦ rw there refl
]
get-remove ((k₀, v₀) ∷ rest) key k = elim (Bool-cases (str_eq k₀ key)) [
  | inl same ↦
      let equal = (eq_iff k₀ key).0 same in
      elim (Bool-cases (str_eq key k)) [
        | inl here ↦ rw (same, get-remove rest key k, here) refl
        | inr there ↦
            let apart : str_eq k₀ k ≡ false = ap (λ s. str_eq s k) equal ∙ there in
            rw (same, get-remove rest key k, there, apart) refl
      ]
  | inr other ↦ elim (Bool-cases (str_eq k₀ k)) [
    | inl here ↦
        let equal = (eq_iff k₀ k).0 here in
        let apart : str_eq key k ≡ false =
          ap (str_eq key) (sym equal) ∙ str_eq_comm_false k₀ key other in
        rw (other, here, apart) refl
    | inr there ↦ rw (other, there) (get-remove rest key k)
  ]
]

-- After any command the value of every key is the one that the effect of the command gives.
pub apply_kv_lem :
    (s : KvState) (now : ℕ) (command : KvCommand) (k : String)
    → get (apply_kv s now command).0.content k ≡ effect command k (get s.content k)
unfolding apply_kv effect get
apply_kv_lem s now (set key v) k = get-insert s.content key v k
apply_kv_lem s now (delete key) k = get-remove s.content key k
apply_kv_lem s now clear k = refl

insert-IsUnique : (m : HashMap) (key v : String) → IsUnique m → IsUnique (insert m key v)
unfolding get insert
insert-IsUnique [] key v u = (refl, tt)
insert-IsUnique ((k₀, v₀) ∷ rest) key v u = elim (Bool-cases (str_eq k₀ key)) [
  | inl same ↦ rw same u
  | inr other ↦
      let apart = str_eq_comm_false k₀ key other in
      let absent : get (insert rest key v) k₀ ≡ none =
        get-insert rest key v k₀ ∙ rw (apart, u.0) refl in
      rw other (absent, insert-IsUnique rest key v u.1)
]

remove-IsUnique : (m : HashMap) (key : String) → IsUnique m → IsUnique (remove m key)
unfolding get remove
remove-IsUnique [] key u = tt
remove-IsUnique ((k₀, v₀) ∷ rest) key u = elim (Bool-cases (str_eq k₀ key)) [
  | inl same ↦ rw same (remove-IsUnique rest key u.1)
  | inr other ↦
      let apart = str_eq_comm_false k₀ key other in
      let absent : get (remove rest key) k₀ ≡ none =
        get-remove rest key k₀ ∙ rw (apart, u.0) refl in
      rw other (absent, remove-IsUnique rest key u.1)
]

-- A command keeps every key at most once in the map.
pub apply_kv-IsUnique :
    (s : KvState) (now : ℕ) (command : KvCommand)
    → IsUnique s.content
    → IsUnique (apply_kv s now command).0.content
unfolding apply_kv
apply_kv-IsUnique s now (set key v) u = insert-IsUnique s.content key v u
apply_kv-IsUnique s now (delete key) u = remove-IsUnique s.content key u
apply_kv-IsUnique s now clear u = tt
