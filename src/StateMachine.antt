-- ===== src/StateMachine.antt =====
-- src/raft/generic_state_machine.rs and src/raft/kv_example.rs: the interface of an application, the
-- wrapper that feeds it from the Raft log, and the key-value store. The clock that a command may
-- read is an argument; bincode is a parameter. A `HashMap` is a list of pairs, whose order stands
-- for the order in which the map is walked; logging is left out.
pub mod Store
pub mod Queries
pub mod Replicas
pub mod Reference
mod Tests
use Prim.Native.String.{String}
use text.Mathlib.Text.{◌==◌ as str_eq, starts_with}
use iroh_raft.Common.{
  ℕ, zero, suc, ◌+◌, ◌%◌, ◌≡◌, Bool, true, false, List, [], ◌∷◌, ◌++◌, map, Option, none, some,
  length, if◌then◌else◌, Outcome, ok, err, map_err,
}
use iroh_raft.Common.Bytes.{u64_mod}
use iroh_raft.Error.{RaftError, Cause}
use iroh_raft.Storage.Codec.{Bytes, Entry}

-- The trait `StateMachine`; a `&mut self` method also answers with the machine after it.
pub record StateMachine : Type 1 where
  pub Machine : Type 0
  pub Command : Type 0
  pub State : Type 0
  pub Response : Type 0
  pub Query : Type 0
  pub QueryResponse : Type 0
  pub apply_command : Machine → ℕ → Command → Machine × Outcome RaftError Response
  pub create_snapshot : Machine → Outcome RaftError State
  pub restore_from_snapshot : Machine → State → Machine × Outcome RaftError (Unit {0})
  pub get_current_state : Machine → State
  pub execute_query : Machine → Query → Outcome RaftError QueryResponse

-- bincode at a type: what it has encoded it decodes.
pub record Bincode (T : Type 0) : Type 0 where
  pub serialize : T → Outcome String Bytes
  pub deserialize : Bytes → Outcome String T
  pub deserialize-serialize : (t : T) (bs : Bytes) → serialize t ≡ ok bs → deserialize bs ≡ ok t

-- `RaftError::from` of a bincode error.
abbrev pub from_bincode : String → RaftError
from_bincode why = RaftError.serialization "binary" Cause.foreign

abbrev pub is_empty {ℓ} : {A : Type ℓ} → List A → Bool
is_empty [] = true
is_empty (x ∷ xs) = false

-- `GenericRaftStateMachine`, which holds nothing but the machine.
module _ (sm : StateMachine) (commands : Bincode sm.Command) (states : Bincode sm.State) where
  open sm use {Machine, Command, State, Response}

  unfoldable pub encode_command : Command → Outcome RaftError Bytes
  encode_command command = map_err from_bincode (commands.serialize command)

  unfoldable pub apply_entry : Machine → ℕ → Entry → Machine × Outcome RaftError Response
  apply_entry m now entry =
      if is_empty entry.payload
      then (m, err (RaftError.invalid_input "entry" "Entry data is empty"))
      else elim (commands.deserialize entry.payload) [
        | err why ↦ (m, err (from_bincode why))
        | ok command ↦ sm.apply_command m now command
      ]

  unfoldable pub create_snapshot : Machine → Outcome RaftError Bytes
  create_snapshot m = elim (sm.create_snapshot m) [
    | err why ↦ err why
    | ok state ↦ map_err from_bincode (states.serialize state)
  ]

  unfoldable pub restore_from_snapshot : Machine → Bytes → Machine × Outcome RaftError (Unit {0})
  restore_from_snapshot m snapshot_data = elim (states.deserialize snapshot_data) [
    | err why ↦ (m, err (from_bincode why))
    | ok state ↦ sm.restore_from_snapshot m state
  ]

  -- The committed entries, one after another; entry `n` is applied at the time `clock n`. A failed
  -- entry does not stop the ones after it.
  unfoldable pub apply_entries : Machine → (ℕ → ℕ) → ℕ → List Entry → Machine
  apply_entries m clock n [] = m
  apply_entries m clock n (entry ∷ more) =
      apply_entries (apply_entry m (clock n) entry).0 clock (suc n) more

abbrev pub HashMap : Type 0
HashMap = List (String × String)

unfoldable pub get : HashMap → String → Option String
get [] key = none
get ((k, v) ∷ rest) key = if str_eq k key then some v else get rest key

unfoldable pub insert : HashMap → String → String → HashMap
insert [] key value = (key, value) ∷ []
insert ((k, v) ∷ rest) key value =
    let inserted = insert rest key value in
    if str_eq k key then (k, value) ∷ rest else (k, v) ∷ inserted

unfoldable pub remove : HashMap → String → HashMap
remove [] key = []
remove ((k, v) ∷ rest) key =
    let removed = remove rest key in if str_eq k key then removed else (k, v) ∷ removed

abbrev pub keys : HashMap → List String
keys [] = []
keys ((k, v) ∷ rest) = k ∷ keys rest

abbrev pub filter_keys : String → List String → List String
filter_keys prefix [] = []
filter_keys prefix (k ∷ ks) =
    if starts_with k prefix then k ∷ filter_keys prefix ks else filter_keys prefix ks

pub data KvCommand : Type 0 where
  set : String → String → KvCommand
  delete : String → KvCommand
  clear : KvCommand

-- `done` is the `Ok` of the source, `got` its `Value` and `key_list` its `Keys`.
pub data KvResponse : Type 0 where
  done : KvResponse
  got : Option String → KvResponse
  key_list : List String → KvResponse

pub data KvQuery : Type 0 where
  get_value : String → KvQuery
  list : Option String → KvQuery
  exists : String → KvQuery
  size : KvQuery

pub data KvQueryResponse : Type 0 where
  found : Option String → KvQueryResponse
  names : List String → KvQueryResponse
  boolean : Bool → KvQueryResponse
  number : ℕ → KvQueryResponse

pub record KvMetadata : Type 0 where
  pub operation_count : ℕ
  pub last_updated : ℕ
  pub version : ℕ

pub record KvState : Type 0 where
  pub content : HashMap
  pub metadata : KvMetadata

-- `KeyValueStore::new`, which reads the clock.
unfoldable pub new_store : ℕ → KvState
new_store now = record {
  content = [];
  metadata = record { operation_count = 0; last_updated = now; version = 0 };
}

abbrev pub update_metadata : KvMetadata → ℕ → KvMetadata
update_metadata m now = record {
  operation_count = (m.operation_count + 1) % u64_mod;
  last_updated = now;
  version = (m.version + 1) % u64_mod;
}

unfoldable pub apply_kv : KvState → ℕ → KvCommand → KvState × Outcome RaftError KvResponse
apply_kv s now (set key value) = (
  record { content = insert s.content key value; metadata = update_metadata s.metadata now },
  ok done,
)
apply_kv s now (delete key) =
    (record { content = remove s.content key; metadata = update_metadata s.metadata now }, ok done)
apply_kv s now clear = (record { content = []; metadata = update_metadata s.metadata now }, ok done)

abbrev pub contains_key : HashMap → String → Bool
contains_key m key = elim (get m key) [ none ↦ false | some v ↦ true ]

unfoldable pub execute_kv : KvState → KvQuery → Outcome RaftError KvQueryResponse
execute_kv s (get_value key) = ok (found (get s.content key))
execute_kv s (list none) = ok (names (keys s.content))
execute_kv s (list (some prefix)) = ok (names (filter_keys prefix (keys s.content)))
execute_kv s (exists key) = ok (boolean (contains_key s.content key))
execute_kv s size = ok (number (length s.content))

-- `impl StateMachine for KeyValueStore`, whose one field is its state.
abbrev pub key_value_store : StateMachine
key_value_store = record {
  Machine = KvState;
  Command = KvCommand;
  State = KvState;
  Response = KvResponse;
  Query = KvQuery;
  QueryResponse = KvQueryResponse;
  apply_command = apply_kv;
  create_snapshot = λ s. ok s;
  restore_from_snapshot = λ s snapshot. (snapshot, ok tt);
  get_current_state = λ s. s;
  execute_query = execute_kv;
}
