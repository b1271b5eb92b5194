-- ===== src/Transport/Stable.antt =====
-- Stable insertion by a key, the reference for the queue of messages that wait for a peer.
use iroh_raft.Common.{
  ℕ, zero, suc, ◌+◌, ◌-◌, ◌≤◌, ◌<◌, ◌≡◌, refl, ap, inl, inr, List, [], ◌∷◌, ◌++◌, append_assoc, All,
  none, some, length, take, ltb, if◌then◌else◌, Bool-cases, arith, le→not_ltb, lt→ltb, ltb→lt,
  not_ltb→le, Option-cases, sym, ◌∙◌,
}
use iroh_raft.Transport.Buffer.{position, insert_at, pop_back, pop_back_above}

module _ {A : Type 0} where
  take-take : (m n : ℕ) (xs : List A) → m ≤ n → take m (take n xs) ≡ take m xs
  take-take zero n xs h = refl
  take-take (suc m) zero xs h = absurd (omega arith)
  take-take (suc m) (suc n) [] h = refl
  take-take (suc m) (suc n) (x ∷ xs) h = ap (◌∷◌ x) (take-take m n xs (omega arith))

  take-suc_take : (n : ℕ) (y : A) (ys : List A) → take n (y ∷ take n ys) ≡ take n (y ∷ ys)
  take-suc_take zero y ys = refl
  take-suc_take (suc n) y ys = ap (◌∷◌ y) (take-take n (suc n) ys (omega arith))

  pub take-short : (n : ℕ) (xs : List A) → length xs ≤ n → take n xs ≡ xs
  take-short zero [] h = refl
  take-short zero (x ∷ xs) h = absurd (omega arith)
  take-short (suc n) [] h = refl
  take-short (suc n) (x ∷ xs) h = ap (◌∷◌ x) (take-short n xs (omega arith))

  pub length-take_le : (n : ℕ) (xs : List A) → length (take n xs) ≤ n
  length-take_le zero xs = omega arith
  length-take_le (suc n) [] = omega arith
  length-take_le (suc n) (x ∷ xs) = omega (arith, length-take_le n xs)

  pop_back-take : (n : ℕ) (xs : List A) → length xs ≡ suc n → pop_back xs ≡ take n xs
  unfolding pop_back
  pop_back-take n [] h = absurd (omega arith)
  pop_back-take zero (x ∷ []) h = refl
  pop_back-take (suc n) (x ∷ []) h = absurd (omega arith)
  pop_back-take zero (x ∷ y ∷ xs) h = absurd (omega arith)
  pop_back-take (suc n) (x ∷ y ∷ xs) h = ap (◌∷◌ x) (pop_back-take n (y ∷ xs) (omega arith))

  -- Popping while the list is too long leaves its front.
  pub pop_back_above-take :
      (rounds limit : ℕ) (xs : List A)
      → length xs ≤ rounds + limit
      → pop_back_above rounds limit xs ≡ take limit xs
  unfolding pop_back_above
  pop_back_above-take zero limit xs h = sym (take-short limit xs (omega arith))
  pop_back_above-take (suc rounds) limit xs h = elim (Bool-cases (ltb limit (length xs))) [
    | inr short ↦ rw short (sym (take-short limit xs (not_ltb→le limit (length xs) short)))
    | inl long ↦
        let more = ltb→lt limit (length xs) long in
        let n = length xs - 1 in
        let shorter = pop_back-take n xs (omega arith) in
        rw long (
          rw shorter (
            pop_back_above-take rounds limit (take n xs) (omega (arith, length-take_le n xs))
            ∙ take-take limit n xs (omega arith)))
  ]

module _ {A : Type 0} (key : A → ℕ) where
  unfoldable pub insert_stable : A → List A → List A
  insert_stable x [] = x ∷ []
  insert_stable x (y ∷ ys) =
      let rest = insert_stable x ys in if ltb (key x) (key y) then x ∷ y ∷ ys else y ∷ rest

  pub insert_at-stable :
      (x : A) (xs : List A)
      → insert_at
          (elim (position (λ m. ltb (key x) (key m)) xs) [ some i ↦ i | none ↦ length xs ])
          x
          xs
        ≡ insert_stable x xs
  unfolding insert_at position insert_stable
  insert_at-stable x [] = refl
  insert_at-stable x (y ∷ ys) = elim (Bool-cases (ltb (key x) (key y))) [
    | inl less ↦ rw less refl
    | inr above ↦
        let later = insert_at-stable x ys in
        elim (Option-cases (position (λ m. ltb (key x) (key m)) ys)) [
          | inl nowhere ↦ rw above (rw nowhere (ap (◌∷◌ y) (rw nowhere at later)))
          | inr (i, here) ↦ rw above (rw here (ap (◌∷◌ y) (rw here at later)))
        ]
  ]

  -- Cutting before an insertion, too, changes nothing.
  pub take-insert_stable :
      (n : ℕ) (x : A) (xs : List A)
      → take n (insert_stable x (take n xs)) ≡ take n (insert_stable x xs)
  unfolding insert_stable
  take-insert_stable zero x xs = refl
  take-insert_stable (suc n) x [] = refl
  take-insert_stable (suc n) x (y ∷ ys) = elim (Bool-cases (ltb (key x) (key y))) [
    | inl less ↦ rw less (ap (◌∷◌ x) (take-suc_take n y ys))
    | inr above ↦ rw above (ap (◌∷◌ y) (take-insert_stable n x ys))
  ]

  pub insert_stable-behind :
      (x : A) (xs ys : List A)
      → All (λ y. key y ≤ key x) xs
      → insert_stable x (xs ++ ys) ≡ xs ++ insert_stable x ys
  unfolding insert_stable
  insert_stable-behind x [] ys h = refl
  insert_stable-behind x (y ∷ xs) ys h =
      rw (le→not_ltb (key x) (key y) h.0) (ap (◌∷◌ y) (insert_stable-behind x xs ys h.1))

  pub insert_stable-last :
      (x : A) (xs : List A) → All (λ y. key y ≤ key x) xs → insert_stable x xs ≡ xs ++ (x ∷ [])
  unfolding insert_stable
  insert_stable-last x [] h = refl
  insert_stable-last x (y ∷ xs) h =
      rw (le→not_ltb (key x) (key y) h.0) (ap (◌∷◌ y) (insert_stable-last x xs h.1))

  pub insert_stable-before :
      (x : A) (ys : List A) → All (λ y. key x < key y) ys → insert_stable x ys ≡ x ∷ ys
  unfolding insert_stable
  insert_stable-before x [] h = refl
  insert_stable-before x (y ∷ ys) h = rw (lt→ltb (key x) (key y) h.0) refl

  pub insert_stable-between :
      (x : A) (xs ys : List A)
      → All (λ y. key y ≤ key x) xs
      → All (λ y. key x < key y) ys
      → insert_stable x (xs ++ ys) ≡ (xs ++ (x ∷ [])) ++ ys
  insert_stable-between x xs ys h k =
      insert_stable-behind x xs ys h
      ∙ ap (λ rest. xs ++ rest) (insert_stable-before x ys k)
      ∙ sym (append_assoc xs (x ∷ []) ys)

-- Lists of elements with one key.
module _ {A : Type 0} (key : A → ℕ) where
  pub All-le :
      (n : ℕ) (p : ℕ) (xs : List A) → All (λ y. key y ≡ p) xs → p ≤ n → All (λ y. key y ≤ n) xs
  All-le n p [] h k = tt
  All-le n p (x ∷ xs) h k = (omega (arith, h.0), All-le n p xs h.1 k)

  pub All-lt-append :
      (n : ℕ) (p : ℕ) (xs ys : List A)
      → All (λ y. key y ≡ p) xs
      → n < p
      → All (λ y. n < key y) ys
      → All (λ y. n < key y) (xs ++ ys)
  All-lt-append n p [] ys h k rest = rest
  All-lt-append n p (x ∷ xs) ys h k rest = (omega (arith, h.0), All-lt-append n p xs ys h.1 k rest)
