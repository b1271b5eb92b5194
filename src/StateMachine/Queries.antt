-- ===== src/StateMachine/Queries.antt =====
-- The queries of the key-value store against each other.
use Prim.Native.String.{String}
use text.Mathlib.Text.{◌==◌ as str_eq, starts_with}
use text.Mathlib.TextEquality.{eq_iff}
use iroh_raft.Common.{
  suc, ◌≡◌, refl, sym, ap, ◌∙◌, Bool, true, false, ◌&&◌, ◌||◌, List, [], ◌∷◌, none, some, inl, inr,
  Bool-cases, length, ok,
}
use iroh_raft.StateMachine.{
  HashMap, get, keys, filter_keys, contains_key, KvState, execute_kv, exists, list, size, boolean,
  names, number,
}

abbrev pub member : String → List String → Bool
member k [] = false
member k (x ∷ xs) = str_eq x k || member k xs

contains_key-member : (m : HashMap) (k : String) → contains_key m k ≡ member k (keys m)
unfolding get
contains_key-member [] k = refl
contains_key-member ((k₀, v₀) ∷ rest) k = elim (Bool-cases (str_eq k₀ k)) [
  | inl here ↦ rw (contains_key, here) refl
  | inr there ↦ rw (contains_key, there) (contains_key-member rest k)
]

and_false : (b : Bool) → (b && false) ≡ false
and_false true = refl
and_false false = refl

member-filter_keys :
    (prefix k : String) (ks : List String)
    → member k (filter_keys prefix ks) ≡ (starts_with k prefix && member k ks)
member-filter_keys prefix k [] = sym (and_false (starts_with k prefix))
member-filter_keys prefix k (x ∷ xs) =
    let rest = member-filter_keys prefix k xs in
    elim (Bool-cases (starts_with x prefix)) [
      | inl starts ↦ elim (Bool-cases (str_eq x k)) [
        | inl here ↦
            let equal = (eq_iff x k).0 here in
            let too : starts_with k prefix ≡ true =
              ap (λ s. starts_with s prefix) (sym equal) ∙ starts in
            rw (starts, here, too) refl
        | inr there ↦ rw (starts, there) rest
      ]
      | inr differs ↦ elim (Bool-cases (str_eq x k)) [
        | inl here ↦
            let equal = (eq_iff x k).0 here in
            let too : starts_with k prefix ≡ false =
              ap (λ s. starts_with s prefix) (sym equal) ∙ differs in
            rw (differs, here, rest, too) refl
        | inr there ↦ rw (differs, there) rest
      ]
    ]

length-keys : (m : HashMap) → length (keys m) ≡ length m
length-keys [] = refl
length-keys ((k, v) ∷ rest) = ap suc (length-keys rest)

-- The list of all keys has as many as `size` says, and holds a key exactly if `exists` says so; the
-- list for a prefix holds exactly those of these keys that start with it.
pub execute_kv_agrees :
    (s : KvState) (prefix : String)
    → (all chosen : List String) × (execute_kv s (list none) ≡ ok (names all))
      × (execute_kv s (list (some prefix)) ≡ ok (names chosen))
      × (execute_kv s size ≡ ok (number (length all)))
      × ((k : String) → execute_kv s (exists k) ≡ ok (boolean (member k all)))
      × ((k : String) → member k chosen ≡ (starts_with k prefix && member k all))
unfolding execute_kv
execute_kv_agrees s prefix = (
  keys s.content,
  filter_keys prefix (keys s.content),
  refl,
  refl,
  ap (λ n. ok (number n)) (sym (length-keys s.content)),
  (λ k. ap (λ b. ok (boolean b)) (contains_key-member s.content k)),
  (λ k. member-filter_keys prefix k (keys s.content)),
)
