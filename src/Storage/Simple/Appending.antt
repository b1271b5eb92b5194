-- ===== src/Storage/Simple/Appending.antt =====
-- `append` against `entries`: what was appended is read back, and what is read was stored.
use Prim.Native.String.{String}
use iroh_raft.Common.{
  ℕ, zero, suc, ◌+◌, ◌-◌, ◌<◌, ◌≤◌, ◌≡◌, ◌≢◌, refl, sym, ap, ◌∙◌, false, List, [], ◌∷◌, Option,
  some, arith, ◌⊎◌, inl, inr, Option-cases, Bool-cases, Outcome-cases, length, All, ltb, ok,
  le→not_ltb, append-nil, lt→ltb,
}
use iroh_raft.Storage.Codec.{Bytes, Entry, entry_bytes, serialize_entry, deserialize_entry}
use iroh_raft.Storage.Codec.Entries.{IsWide, deserialize_entry-serialize_entry}
use iroh_raft.Storage.Redb.{Crates}
use iroh_raft.Storage.Simple.{Database, append, insert_entries, unwrap_or, u64_max}
use iroh_raft.Storage.Simple.Queries.{entries, read_entries}

-- Entries with consecutive indices from `low` on.
abbrev pub Contiguous : ℕ → List Entry → Type 0
Contiguous low [] = Unit
Contiguous low (e ∷ es) = (e.index ≡ low) × Contiguous (suc low) es

-- The bytes that entries take in the log.
abbrev pub stored_size : List Entry → ℕ
stored_size [] = 0
stored_size (e ∷ es) = length (entry_bytes e) + stored_size es

-- redb reports no error.
abbrev pub NoFaults : Crates → Type 0
NoFaults c = (op : String) (key : ℕ) → c.faults op key ≡ false

entry_round_trip : (e : Entry) → IsWide e → deserialize_entry (entry_bytes e) ≡ ok e
unfolding serialize_entry
entry_round_trip e w = rw append-nil at (deserialize_entry-serialize_entry e [] w)

module _ (c : Crates) where
  open c use {log}

  pub insert_entries_step :
      (e : Entry) (es : List Entry) (table table' : log.Content)
      → insert_entries c table (e ∷ es) ≡ ok table'
      → insert_entries c (log.insert table e.index (entry_bytes e)) es ≡ ok table'
  unfolding insert_entries serialize_entry
  insert_entries_step e es table table' done = ground arith

  get-insert_entries_below :
      (es : List Entry) (low i : ℕ) (table table' : log.Content)
      → insert_entries c table es ≡ ok table'
      → Contiguous low es
      → i < low
      → log.get table' i ≡ log.get table i
  unfolding insert_entries
  get-insert_entries_below [] low i table table' done run h = ground arith
  get-insert_entries_below (e ∷ es) low i table table' done run h =
      let rest = insert_entries_step e es table table' done in
      let apart : e.index ≢ i = omega (arith, run.0) in
      get-insert_entries_below es (suc low) i _ table' rest run.1 (omega arith)
      ∙ log.get-insert_ne table e.index i (entry_bytes e) apart

  insert_entries_total :
      NoFaults c
      → (es : List Entry) (table : log.Content)
      → (table' : log.Content) × (insert_entries c table es ≡ ok table')
  unfolding insert_entries serialize_entry
  insert_entries_total calm [] table = (table, refl)
  insert_entries_total calm (e ∷ es) table =
      rw (calm "insert log entry" e.index)
        (insert_entries_total calm es (log.insert table e.index (entry_bytes e)))

  read_entries-insert_entries :
      (es : List Entry) (low total max_size : ℕ) (table table' : log.Content)
      → NoFaults c
      → insert_entries c table es ≡ ok table'
      → Contiguous low es
      → All IsWide es
      → total + stored_size es ≤ max_size
      → read_entries c table' max_size (length es) low total ≡ ok es
  unfolding read_entries
  read_entries-insert_entries [] low total max_size table table' calm done run wide room = refl
  read_entries-insert_entries (e ∷ es) low total max_size table table' calm done run wide room =
      let rest = insert_entries_step e es table table' done in
      let here : log.get table' low ≡ some (entry_bytes e) =
        get-insert_entries_below es (suc low) low _ table' rest run.1 (omega arith)
        ∙ ap (log.get (log.insert table e.index (entry_bytes e))) (sym run.0)
        ∙ log.get-insert_self table e.index (entry_bytes e) in
      rw (
        calm "get log entry" low,
        here,
        le→not_ltb max_size (total + length (entry_bytes e)) (omega arith),
        entry_round_trip e wide.0,
        read_entries-insert_entries es (suc low) (total + length (entry_bytes e)) max_size _ table'
            calm rest run.1 wide.1 (omega arith),
      )

  entries_calm :
      (db : Database c) (low left : ℕ) (max_size : Option ℕ)
      → NoFaults c
      → entries c db low (low + left) max_size
        ≡ read_entries c db.raft_log (unwrap_or max_size u64_max) left low 0
  unfolding entries
  entries_calm db low left max_size calm =
      let count : low + left - low ≡ left = omega arith in
      rw (calm "begin read transaction" 0, calm "open raft_log table" 0, count)

  -- If redb reports no error, entries with consecutive indices are appended, and a read of their
  -- range gives them back, where the limit leaves room for their bytes.
  pub entries-append :
      (db : Database c) (es : List Entry) (low : ℕ) (max_size : Option ℕ)
      → NoFaults c
      → Contiguous low es
      → All IsWide es
      → stored_size es ≤ unwrap_or max_size u64_max
      → (db' : Database c) × (append c db es ≡ ok db')
        × (entries c db' low (low + length es) max_size ≡ ok es)
  unfolding append
  entries-append db [] low max_size calm run wide room =
      (db, refl, entries_calm db low 0 max_size calm ∙ unfold read_entries in refl)
  entries-append db (e ∷ es) low max_size calm run wide room =
      let (table, stored) = insert_entries_total calm (e ∷ es) db.raft_log in
      (
        record db { raft_log = table },
        rw (
          calm "begin write transaction" 0,
          calm "open raft_log table" 0,
          stored,
          calm "commit entries" 0,
        ),
        entries_calm _ low (length (e ∷ es)) max_size calm
            ∙ read_entries-insert_entries (e ∷ es) low 0 (unwrap_or max_size u64_max) db.raft_log
                table calm stored run wide (omega arith),
      )

-- The entries that stand in the log from `low` on, one at each index.
abbrev pub StoredFrom : (c : Crates) → c.log.Content → ℕ → List Entry → Type 0
StoredFrom c table low [] = Unit
StoredFrom c table low (e ∷ es) =
    ((bytes : Bytes) × (c.log.get table low ≡ some bytes) × (deserialize_entry bytes ≡ ok e))
    × StoredFrom c table (suc low) es

module _ (c : Crates) where
  open c use {log}

  -- One round of the loop that went well: the limit is reached, or an entry is taken.
  read_entries_cases :
      (table : log.Content) (max_size left low total : ℕ) (es : List Entry)
      → read_entries c table max_size (suc left) low total ≡ ok es
      → (es ≡ [])
        ⊎ ((e : Entry) × (rest : List Entry) × (bytes : Bytes) × (es ≡ e ∷ rest)
            × (log.get table low ≡ some bytes)
            × (deserialize_entry bytes ≡ ok e)
            × (read_entries c table max_size left (suc low) (total + length bytes) ≡ ok rest))
  unfolding read_entries
  read_entries_cases table max_size left low total es h = elim (Option-cases (log.get table low)) [
    | inl missing ↦ absurd (ground arith)
    | inr (bytes, found) ↦ elim (Bool-cases (ltb max_size (total + length bytes))) [
      | inl full ↦ inl (ground arith)
      | inr room ↦ elim (Outcome-cases (deserialize_entry bytes)) [
        | inl (e, good) ↦
            elim (Outcome-cases
              (read_entries c table max_size left (suc low) (total + length bytes))) [
                | inl (rest, more) ↦ inr (e, rest, bytes, ground arith, found, good, more)
                | inr (x, bad) ↦ absurd (ground arith)
              ]
        | inr (x, bad) ↦ absurd (ground arith)
      ]
    ]
  ]

  read_entries_sound :
      (table : log.Content) (max_size left low total : ℕ) (es : List Entry)
      → read_entries c table max_size left low total ≡ ok es
      → StoredFrom c table low es × (length es ≤ left)
  read_entries_sound table max_size zero low total [] h = (tt, omega arith)
  read_entries_sound table max_size zero low total (e ∷ es) h = absurd (unfold read_entries in cc)
  read_entries_sound table max_size (suc left) low total es h =
      elim (read_entries_cases table max_size left low total es h) [
        | inl e ↦ rw e (tt, omega arith)
        | inr (e, rest, bytes, shape, found, good, more) ↦
            let tail =
              read_entries_sound table max_size left (suc low) (total + length bytes) rest more in
            rw shape (((bytes, found, good), tail.0), omega (arith, tail.1))
      ]

  -- Whatever redb does: entries that a read returns stand in the log at consecutive indices from
  -- `low` on, and none lies at or past `high`.
  pub entries_sound :
      (db : Database c) (low high : ℕ) (max_size : Option ℕ) (es : List Entry)
      → entries c db low high max_size ≡ ok es
      → StoredFrom c db.raft_log low es × (length es ≤ high - low)
  unfolding entries
  entries_sound db low high max_size es h =
      read_entries_sound db.raft_log (unwrap_or max_size u64_max) (high - low) low 0 es
        (ground arith)

  -- The limit holds for the first entry too: if redb reports no error, an entry that is larger
  -- than the limit is not returned, and the read succeeds with nothing.
  pub entries_oversized :
      (db : Database c) (low high limit : ℕ) (bytes : Bytes)
      → NoFaults c
      → low < high
      → log.get db.raft_log low ≡ some bytes
      → limit < length bytes
      → entries c db low high (some limit) ≡ ok []
  unfolding entries read_entries
  entries_oversized db low high limit bytes calm some_left here large =
      let count : high - low ≡ suc (high - low - 1) = omega arith in
      rw (
        calm "begin read transaction" 0,
        calm "open raft_log table" 0,
        count,
        calm "get log entry" low,
        here,
        lt→ltb limit (0 + length bytes) (omega arith),
      )
