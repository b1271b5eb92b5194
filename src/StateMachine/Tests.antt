-- ===== src/StateMachine/Tests.antt =====
-- Replicas at a concrete log: each applies a result.
use Prim.Native.String.{String}
use iroh_raft.Common.{ℕ, suc, ◌+◌, ◌≡◌, refl, false, List, [], ◌∷◌, ok}
use iroh_raft.Storage.Codec.{Bytes, Entry}
use iroh_raft.StateMachine.{
  KvState, KvCommand, set, delete, new_store, key_value_store, apply_entries, apply_entry, apply_kv,
  insert, encode_command, create_snapshot, restore_from_snapshot, get,
}
use iroh_raft.StateMachine.Replicas.{
  Agree, Carries, fold_effects, apply_entries-fold_effects, apply_entries-restore_from_snapshot,
}
use iroh_raft.StateMachine.Reference.{two_words, two_word_states}

abbrev entry_of : ℕ → Bytes → Entry
entry_of index payload = record {
  entry_type = 0;
  term = 1;
  index = index;
  payload = payload;
  context = [];
  sync_log = false;
}

abbrev log : List Entry
log = entry_of 1 (0 ∷ 0 ∷ 1 ∷ []) ∷ entry_of 2 (1 ∷ 1 ∷ []) ∷ []

abbrev commands : List KvCommand
commands = set "a" "b" ∷ delete "b" ∷ []

log-Carries : Carries two_words two_word_states log commands
unfolding encode_command
log-Carries = (refl, refl, (refl, refl, tt))

apply_entries-fold_effects_example :
    get
      (apply_entries key_value_store two_words two_word_states (new_store 3) suc 0 log).content
      "a"
    ≡ fold_effects commands "a" (get (new_store 3).content "a")
apply_entries-fold_effects_example =
    apply_entries-fold_effects two_words two_word_states log commands (new_store 3) suc 0 "a"
      log-Carries

abbrev earlier : List Entry
earlier = entry_of 1 (0 ∷ 0 ∷ 1 ∷ []) ∷ []

abbrev later : List Entry
later = entry_of 2 (1 ∷ 1 ∷ []) ∷ []

earlier-Carries : Carries two_words two_word_states earlier (set "a" "b" ∷ [])
unfolding encode_command
earlier-Carries = (refl, refl, tt)

later-Carries : Carries two_words two_word_states later (delete "b" ∷ [])
unfolding encode_command
later-Carries = (refl, refl, tt)

abbrev snapshot : Bytes
snapshot = 1 ∷ 0 ∷ 1 ∷ 0 ∷ 1 ∷ []

snapshot_created :
    create_snapshot key_value_store two_words two_word_states
      (apply_entries key_value_store two_words two_word_states (new_store 3) (λ n. n) 0 earlier)
    ≡ ok snapshot
unfolding create_snapshot new_store apply_entries apply_entry apply_kv insert
snapshot_created = refl

abbrev caught_up : KvState
caught_up =
    apply_entries key_value_store two_words two_word_states
      (restore_from_snapshot key_value_store two_words two_word_states (new_store 9) snapshot).0
      (λ n. n + 20) 5 later

apply_entries-restore_from_snapshot_example :
    Agree caught_up
      (apply_entries key_value_store two_words two_word_states (new_store 3) (λ n. n) 0 log)
    × ((k : String)
        → get caught_up.content k ≡ fold_effects commands k (get (new_store 3).content k))
apply_entries-restore_from_snapshot_example =
    apply_entries-restore_from_snapshot two_words two_word_states earlier later (set "a" "b" ∷ [])
      (delete "b" ∷ []) (new_store 3) (new_store 9) (λ n. n) (λ n. n + 20) 0 5 snapshot
      earlier-Carries later-Carries snapshot_created
