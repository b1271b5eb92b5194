-- ===== src/StateMachine/Replicas.antt =====
-- Replicas of the key-value store that are fed from the same log.
use Prim.Native.String.{String}
use iroh_raft.Common.{
  ℕ, suc, ◌+◌, ◌≡◌, arith, ◌++◌, length, refl, ap, ◌∙◌, false, List, [], ◌∷◌, Option, inl, inr,
  Bool-cases, Outcome-cases, ok, map_err_ok,
}
use iroh_raft.Storage.Codec.{Bytes, Entry}
use iroh_raft.StateMachine.{
  Bincode, is_empty, KvCommand, set, delete, clear, KvState, apply_kv, key_value_store, apply_entry,
  apply_entries, encode_command, create_snapshot, restore_from_snapshot, get, HashMap,
}
use iroh_raft.StateMachine.Store.{effect, apply_kv_lem}

-- All but the local times.
abbrev pub Agree : KvState → KvState → Type 0
Agree a b =
    (a.content ≡ b.content)
    × (a.metadata.operation_count ≡ b.metadata.operation_count)
    × (a.metadata.version ≡ b.metadata.version)

apply_kv-Agree :
    (a b : KvState) (now now' : ℕ) (command : KvCommand)
    → Agree a b
    → Agree (apply_kv a now command).0 (apply_kv b now' command).0
unfolding apply_kv
apply_kv-Agree a b now now' (set key v) same = rw (same.0, same.1, same.2) (refl, refl, refl)
apply_kv-Agree a b now now' (delete key) same = rw (same.0, same.1, same.2) (refl, refl, refl)
apply_kv-Agree a b now now' clear same = rw (same.1, same.2) (refl, refl, refl)

abbrev pub fold_effects : List KvCommand → String → Option String → Option String
fold_effects [] k old = old
fold_effects (command ∷ more) k old = fold_effects more k (effect command k old)

module _ (commands : Bincode KvCommand) (states : Bincode KvState) where
  -- The entries carry the commands, encoded; no encoding is empty.
  abbrev pub Carries : List Entry → List KvCommand → Type 0
  Carries [] [] = Unit
  Carries (e ∷ es) (c ∷ cs) =
      (encode_command key_value_store commands states c ≡ ok e.payload)
      × (is_empty e.payload ≡ false)
      × Carries es cs
  Carries _ _ = ⊥

  apply_entry-Agree :
      (e : Entry) (a b : KvState) (now now' : ℕ)
      → Agree a b
      → Agree
          (apply_entry key_value_store commands states a now e).0
          (apply_entry key_value_store commands states b now' e).0
  unfolding apply_entry
  apply_entry-Agree e a b now now' same = elim (Bool-cases (is_empty e.payload)) [
    | inl empty ↦ rw empty same
    | inr full ↦ elim (Outcome-cases (commands.deserialize e.payload)) [
      | inl (command, read) ↦ rw (full, read) (apply_kv-Agree a b now now' command same)
      | inr (why, failed) ↦ rw (full, failed) same
    ]
  ]

  -- Two replicas that agree but for the time of their last update, and apply the same entries,
  -- whatever these hold and whatever their clocks say, agree again.
  apply_entries-Agree :
      (es : List Entry) (a b : KvState) (clock clock' : ℕ → ℕ) (n m : ℕ)
      → Agree a b
      → Agree
          (apply_entries key_value_store commands states a clock n es)
          (apply_entries key_value_store commands states b clock' m es)
  unfolding apply_entries
  apply_entries-Agree [] a b clock clock' n m same = same
  apply_entries-Agree (e ∷ es) a b clock clock' n m same =
      apply_entries-Agree es _ _ clock clock' (suc n) (suc m)
        (apply_entry-Agree e a b (clock n) (clock' m) same)

  apply_entry-effect :
      (e : Entry) (c : KvCommand) (s : KvState) (now : ℕ) (k : String)
      → encode_command key_value_store commands states c ≡ ok e.payload
      → is_empty e.payload ≡ false
      → get (apply_entry key_value_store commands states s now e).0.content k
        ≡ effect c k (get s.content k)
  unfolding apply_entry encode_command
  apply_entry-effect e c s now k encoded full =
      let read =
        commands.deserialize-serialize c e.payload
          (map_err_ok _ (commands.serialize c) e.payload encoded) in
      rw (full, read) (apply_kv_lem s now c k)

  -- A store that applies entries that carry commands has, for every key, the value that the effects
  -- of the commands give one after another.
  pub apply_entries-fold_effects :
      (es : List Entry) (cs : List KvCommand) (s : KvState) (clock : ℕ → ℕ) (n : ℕ) (k : String)
      → Carries es cs
      → get (apply_entries key_value_store commands states s clock n es).content k
        ≡ fold_effects cs k (get s.content k)
  unfolding apply_entries
  apply_entries-fold_effects [] [] s clock n k carried = refl
  apply_entries-fold_effects (e ∷ es) (c ∷ cs) s clock n k carried =
      apply_entries-fold_effects es cs _ clock (suc n) k carried.2
      ∙ ap (fold_effects cs k) (apply_entry-effect e c s (clock n) k carried.0 carried.1)
  apply_entries-fold_effects [] (c ∷ cs) s clock n k carried = absurd carried
  apply_entries-fold_effects (e ∷ es) [] s clock n k carried = absurd carried

  -- A snapshot that one store has created puts any other store into its state.
  restore_from_snapshot-create_snapshot :
      (s other : KvState) (snapshot : Bytes)
      → create_snapshot key_value_store commands states s ≡ ok snapshot
      → restore_from_snapshot key_value_store commands states other snapshot ≡ (s, ok tt)
  unfolding create_snapshot restore_from_snapshot
  restore_from_snapshot-create_snapshot s other snapshot h =
      let read =
        states.deserialize-serialize s snapshot (map_err_ok _ (states.serialize s) snapshot h) in
      rw (restore_from_snapshot, read) refl

  apply_entries-append :
      (before after : List Entry) (s : KvState) (clock : ℕ → ℕ) (n : ℕ)
      → apply_entries key_value_store commands states s clock n (before ++ after)
        ≡ apply_entries key_value_store commands states
            (apply_entries key_value_store commands states s clock n before)
            clock
            (n + length before)
            after
  unfolding apply_entries
  apply_entries-append [] after s clock n =
      let same : n ≡ n + 0 = omega arith in
      ap (λ (m : ℕ). apply_entries key_value_store commands states s clock m after) same
  apply_entries-append (e ∷ before) after s clock n =
      let s' = (apply_entry key_value_store commands states s (clock n) e).0 in
      let last = apply_entries key_value_store commands states s' clock (suc n) before in
      let same : suc n + length before ≡ n + suc (length before) = omega arith in
      apply_entries-append before after s' clock (suc n)
      ∙ ap (λ (m : ℕ). apply_entries key_value_store commands states last clock m after) same

  Carries-append :
      (before after : List Entry) (cs cs' : List KvCommand)
      → Carries before cs
      → Carries after cs'
      → Carries (before ++ after) (cs ++ cs')
  Carries-append [] after [] cs' first second = second
  Carries-append (e ∷ before) after (c ∷ cs) cs' first second =
      (first.0, first.1, Carries-append before after cs cs' first.2 second)
  Carries-append [] after (c ∷ cs) cs' first second = absurd first
  Carries-append (e ∷ before) after [] cs' first second = absurd first

  -- A replica, in whatever state, that restores the snapshot which another one has created after some entries, and then
  -- applies the later entries by its own clock, agrees but for the time of the last update with a replica that has applied
  -- all the entries; and for every key it has the value that the effects of all the commands give one after another.
  pub apply_entries-restore_from_snapshot :
      (before after : List Entry) (cs cs' : List KvCommand) (s other : KvState)
      (clock clock' : ℕ → ℕ) (n m : ℕ) (snapshot : Bytes)
      → Carries before cs
      → Carries after cs'
      → create_snapshot key_value_store commands states
          (apply_entries key_value_store commands states s clock n before)
        ≡ ok snapshot
      → let restored = (restore_from_snapshot key_value_store commands states other snapshot).0 in
        let caught_up = apply_entries key_value_store commands states restored clock' m after in
        Agree caught_up (apply_entries key_value_store commands states s clock n (before ++ after))
        × ((k : String) → get caught_up.content k ≡ fold_effects (cs ++ cs') k (get s.content k))
  apply_entries-restore_from_snapshot before after cs cs' s other clock clock' n m snapshot first
        second created =
      let middle = apply_entries key_value_store commands states s clock n before in
      let put_back = restore_from_snapshot-create_snapshot middle other snapshot created in
      let whole = apply_entries-append before after s clock n in
      let all = apply_entries key_value_store commands states s clock n (before ++ after) in
      let agree : Agree (apply_entries key_value_store commands states middle clock' m after) all =
        rw whole (
          apply_entries-Agree after middle middle clock' clock m (n + length before)
            (refl, refl, refl)) in
      let carried = Carries-append before after cs cs' first second in
      rw put_back (
        agree,
        λ k.
            ap (λ (c : HashMap). get c k) agree.0
            ∙ apply_entries-fold_effects (before ++ after) (cs ++ cs') s clock n k carried,
      )
