-- ===== src/StateMachine/Reference.antt =====
-- A bincode of two words, which fails on every other text: it shows that the laws can hold.
use Prim.Native.String.{String}
use text.Mathlib.Text.{◌==◌ as str_eq}
use text.Mathlib.TextEquality.{eq_iff}
use iroh_raft.Common.{
  ℕ, zero, suc, ◌≡◌, refl, sym, ap, ◌∙◌, [], ◌∷◌, inl, inr, if◌then◌else◌, Bool-cases, Outcome, ok,
  err, ◌>>=◌, >>=-eq_ok, ok_injective,
}
use iroh_raft.Storage.Codec.{Bytes}
use iroh_raft.StateMachine.{Bincode, HashMap, KvCommand, set, delete, clear, KvState}

abbrev pub number_of : String → Outcome String ℕ
number_of w = if str_eq w "a" then ok 0 else if str_eq w "b" then ok 1 else err "unknown word"

abbrev pub word_of : ℕ → Outcome String String
word_of zero = ok "a"
word_of (suc zero) = ok "b"
word_of _ = err "unknown number"

word_of-number_of : (w : String) (i : ℕ) → number_of w ≡ ok i → word_of i ≡ ok w
word_of-number_of w i h = elim (Bool-cases (str_eq w "a")) [
  | inl a ↦
      let given : ◌≡◌ {A = Outcome String ℕ} (ok 0) (ok i) = rw a at h in
      ap word_of (sym (ok_injective given)) ∙ ap ok (sym ((eq_iff w "a").0 a))
  | inr not_a ↦ elim (Bool-cases (str_eq w "b")) [
    | inl b ↦
        let given : ◌≡◌ {A = Outcome String ℕ} (ok 1) (ok i) = rw (not_a, b) at h in
        ap word_of (sym (ok_injective given)) ∙ ap ok (sym ((eq_iff w "b").0 b))
    | inr not_b ↦
        let given : ◌≡◌ {A = Outcome String ℕ} (err "unknown word") (ok i) =
          rw (not_a, not_b) at h in
        absurd cc
  ]
]

abbrev pub serialize : KvCommand → Outcome String Bytes
serialize (set key v) = number_of key >>= λ i. number_of v >>= λ j. ok (0 ∷ i ∷ j ∷ [])
serialize (delete key) = number_of key >>= λ i. ok (1 ∷ i ∷ [])
serialize clear = ok (2 ∷ [])

abbrev pub deserialize : Bytes → Outcome String KvCommand
deserialize (zero ∷ i ∷ j ∷ []) = word_of i >>= λ key. word_of j >>= λ v. ok (set key v)
deserialize (suc zero ∷ i ∷ []) = word_of i >>= λ key. ok (delete key)
deserialize (suc (suc zero) ∷ []) = ok clear
deserialize _ = err "invalid"

pub deserialize-serialize :
    (c : KvCommand) (bs : Bytes) → serialize c ≡ ok bs → deserialize bs ≡ ok c
deserialize-serialize (set key v) bs h =
    let (i, first, rest) =
      >>=-eq_ok (number_of key) (λ i. number_of v >>= λ j. ok (0 ∷ i ∷ j ∷ [])) bs h in
    let (j, second, last) = >>=-eq_ok (number_of v) (λ j. ok (0 ∷ i ∷ j ∷ [])) bs rest in
    ap deserialize (sym (ok_injective last))
    ∙ rw (word_of-number_of key i first, word_of-number_of v j second) refl
deserialize-serialize (delete key) bs h =
    let (i, first, last) = >>=-eq_ok (number_of key) (λ i. ok (1 ∷ i ∷ [])) bs h in
    ap deserialize (sym (ok_injective last)) ∙ rw (word_of-number_of key i first) refl
deserialize-serialize clear bs h = ap deserialize (sym (ok_injective h))

abbrev pub two_words : Bincode KvCommand
two_words = record {
  serialize = serialize;
  deserialize = deserialize;
  deserialize-serialize = deserialize-serialize;
}

abbrev pub serialize_pairs : HashMap → Outcome String Bytes
serialize_pairs [] = ok []
serialize_pairs ((k, v) ∷ rest) =
    number_of k >>= λ i. number_of v >>= λ j. serialize_pairs rest >>= λ bs. ok (i ∷ j ∷ bs)

abbrev pub deserialize_pairs : Bytes → Outcome String HashMap
deserialize_pairs [] = ok []
deserialize_pairs (i ∷ []) = err "invalid"
deserialize_pairs (i ∷ j ∷ bs) =
    word_of i >>= λ k. word_of j >>= λ v. deserialize_pairs bs >>= λ rest. ok ((k, v) ∷ rest)

deserialize_pairs-serialize_pairs :
    (m : HashMap) (bs : Bytes) → serialize_pairs m ≡ ok bs → deserialize_pairs bs ≡ ok m
deserialize_pairs-serialize_pairs [] bs h = ap deserialize_pairs (sym (ok_injective h))
deserialize_pairs-serialize_pairs ((k, v) ∷ rest) bs h =
    let (i, first, h₁) =
      >>=-eq_ok (number_of k)
        (λ i. number_of v >>= λ j. serialize_pairs rest >>= λ bs. ok (i ∷ j ∷ bs)) bs h in
    let (j, second, h₂) =
      >>=-eq_ok (number_of v) (λ j. serialize_pairs rest >>= λ bs. ok (i ∷ j ∷ bs)) bs h₁ in
    let (tail, third, last) = >>=-eq_ok (serialize_pairs rest) (λ bs. ok (i ∷ j ∷ bs)) bs h₂ in
    ap deserialize_pairs (sym (ok_injective last))
    ∙ rw
        (
          word_of-number_of k i first,
          word_of-number_of v j second,
          deserialize_pairs-serialize_pairs rest tail third,
        )
        refl

abbrev pub serialize_state : KvState → Outcome String Bytes
serialize_state s = serialize_pairs s.content >>= λ bs.
    ok (s.metadata.operation_count ∷ s.metadata.last_updated ∷ s.metadata.version ∷ bs)

abbrev pub deserialize_state : Bytes → Outcome String KvState
deserialize_state (count ∷ updated ∷ version ∷ bs) = deserialize_pairs bs >>= λ content.
    ok (record {
      content = content;
      metadata = record { operation_count = count; last_updated = updated; version = version };
    })
deserialize_state _ = err "invalid"

pub deserialize_state-serialize_state :
    (s : KvState) (bs : Bytes) → serialize_state s ≡ ok bs → deserialize_state bs ≡ ok s
deserialize_state-serialize_state s bs h =
    let (tail, first, last) = >>=-eq_ok (serialize_pairs s.content) _ bs h in
    ap deserialize_state (sym (ok_injective last))
    ∙ rw (deserialize_pairs-serialize_pairs s.content tail first) refl

abbrev pub two_word_states : Bincode KvState
two_word_states = record {
  serialize = serialize_state;
  deserialize = deserialize_state;
  deserialize-serialize = deserialize_state-serialize_state;
}
