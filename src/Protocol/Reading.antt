-- ===== src/Protocol/Reading.antt =====
-- What `read_message` takes from a stream, by either strategy.
use Prim.Native.String.{String}
use iroh_raft.Common.{
  ℕ, zero, suc, ◌+◌, ◌-◌, ◌≤◌, ◌<◌, ◌≡◌, refl, sym, ap, ◌∙◌, [], ◌∷◌, ◌++◌, arith, min, inl, inr,
  length, take, drop, ltb, ltb→lt, not_ltb→le, Bool-cases, ok, err, append-nil, append_assoc,
  length-drop, drop-drop,
}
use iroh_raft.Error.{RaftError}
use iroh_raft.Storage.Codec.{Bytes}
use iroh_raft.Protocol.{Wire, chunk_size, internal_error, large_message_threshold}
use iroh_raft.Protocol.Frames.{
  read_part, read_chunks, read_payload, read_large_payload_streaming, read_small_payload_direct,
}

take-nil : (n : ℕ) → take {A = ℕ} n [] ≡ []
take-nil zero = refl
take-nil (suc n) = refl

take-split : (m k n : ℕ) (xs : Bytes) → m + k ≡ n → take n xs ≡ take m xs ++ take k (drop m xs)
take-split zero k n xs h = ap (λ j. take j xs) (omega arith)
take-split (suc m) k zero xs h = absurd (omega arith)
take-split (suc m) k (suc n) [] h = sym (take-nil k)
take-split (suc m) k (suc n) (x ∷ xs) h = ap (◌∷◌ x) (take-split m k n xs (omega arith))

drop-split : (m k n : ℕ) (xs : Bytes) → m + k ≡ n → drop n xs ≡ drop k (drop m xs)
drop-split m k n xs h = ap (λ j. drop j xs) (sym h) ∙ drop-drop k m xs

module _ (wire : Wire) where
  open wire use {Reader, pending}

  pub read_part_full :
      (what : String) (r : Reader) (n : ℕ)
      → n ≤ length (pending r)
      → (r' : Reader) × (read_part wire what r n ≡ ok (take n (pending r), r'))
        × (pending r' ≡ drop n (pending r))
  read_part_full what r n h =
      let (r', given, left) = wire.read_exact_full r n h in (r', rw given refl, left)

  pub read_part_short :
      (what : String) (r : Reader) (n : ℕ)
      → length (pending r) < n
      → (why : RaftError) × (read_part wire what r n ≡ err why)
  read_part_short what r n h =
      let (why, given) = wire.read_exact_short r n h in (internal_error what why, rw given refl)

  read_chunks_full :
      (fuel : ℕ) (r : Reader) (remaining : ℕ) (buf : Bytes)
      → remaining ≤ fuel
      → remaining ≤ length (pending r)
      → (r' : Reader) × (read_chunks wire fuel r remaining buf
          ≡ ok (buf ++ take remaining (pending r), r'))
        × (pending r' ≡ drop remaining (pending r))
  unfolding read_chunks
  read_chunks_full zero r zero buf enough h = (r, rw append-nil refl, refl)
  read_chunks_full zero r (suc n) buf enough h = absurd (omega arith)
  read_chunks_full (suc fuel) r zero buf enough h = (r, rw append-nil refl, refl)
  read_chunks_full (suc fuel) r (suc n) buf enough h =
      let some_of = min (suc n) chunk_size in
      let fits : some_of ≤ suc n = omega arith in
      let part : 0 < some_of = omega arith in
      let (r₁, given, left) =
        read_part_full "Failed to read payload chunk: " r some_of (omega arith) in
      let there : length (pending r₁) ≡ length (pending r) - some_of =
        rw left (length-drop some_of (pending r)) in
      let (r₂, rest, over) =
        read_chunks_full fuel r₁ (suc n - some_of) (buf ++ take some_of (pending r)) (omega arith)
          (omega arith) in
      let whole = take-split some_of (suc n - some_of) (suc n) (pending r) (omega arith) in
      (
        r₂,
        rw given (
            rest
            ∙ ap (λ bytes. ok (bytes, r₂))
                (append_assoc buf _ _
                  ∙ ap (◌++◌ buf) (
                      ap (λ bytes. take some_of (pending r) ++ take (suc n - some_of) bytes) left
                      ∙ sym whole))),
        over
            ∙ ap (drop (suc n - some_of)) left
            ∙ sym (drop-split some_of (suc n - some_of) (suc n) (pending r) (omega arith)),
      )

  read_chunks_short :
      (fuel : ℕ) (r : Reader) (remaining : ℕ) (buf : Bytes)
      → remaining ≤ fuel
      → length (pending r) < remaining
      → (why : RaftError) × (read_chunks wire fuel r remaining buf ≡ err why)
  unfolding read_chunks
  read_chunks_short zero r zero buf enough h = absurd (omega arith)
  read_chunks_short zero r (suc n) buf enough h = absurd (omega arith)
  read_chunks_short (suc fuel) r zero buf enough h = absurd (omega arith)
  read_chunks_short (suc fuel) r (suc n) buf enough h =
      let some_of = min (suc n) chunk_size in
      elim (Bool-cases (ltb (length (pending r)) some_of)) [
        | inl few ↦
            let (why, given) =
              read_part_short "Failed to read payload chunk: " r some_of
                (ltb→lt (length (pending r)) some_of few) in
            (why, rw given refl)
        | inr many ↦
            let (r₁, given, left) =
              read_part_full "Failed to read payload chunk: " r some_of
                (not_ltb→le (length (pending r)) some_of many) in
            let there : length (pending r₁) ≡ length (pending r) - some_of =
              rw left (length-drop some_of (pending r)) in
            let fits : some_of ≤ length (pending r) =
              not_ltb→le (length (pending r)) some_of many in
            let (why, rest) =
              read_chunks_short fuel r₁ (suc n - some_of) (buf ++ take some_of (pending r))
                (omega arith) (omega arith) in
            (why, rw given rest)
      ]

  -- Where as many bytes are to come as the payload has, either strategy reads exactly these, and
  -- leaves the rest.
  pub read_payload_full :
      (r : Reader) (payload_len : ℕ)
      → payload_len ≤ length (pending r)
      → (r' : Reader) × (read_payload wire r payload_len ≡ ok (take payload_len (pending r), r'))
        × (pending r' ≡ drop payload_len (pending r))
  unfolding read_large_payload_streaming read_small_payload_direct
  read_payload_full r payload_len h = elim (Bool-cases (ltb large_message_threshold payload_len)) [
    | inl large ↦ rw large (read_chunks_full payload_len r payload_len [] (omega arith) h)
    | inr small ↦ rw small (read_part_full "Failed to read payload: " r payload_len h)
  ]

  pub read_payload_short :
      (r : Reader) (payload_len : ℕ)
      → length (pending r) < payload_len
      → (why : RaftError) × (read_payload wire r payload_len ≡ err why)
  unfolding read_large_payload_streaming read_small_payload_direct
  read_payload_short r payload_len h = elim (Bool-cases (ltb large_message_threshold payload_len)) [
    | inl large ↦ rw large (read_chunks_short payload_len r payload_len [] (omega arith) h)
    | inr small ↦ rw small (read_part_short "Failed to read payload: " r payload_len h)
  ]
