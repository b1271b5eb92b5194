-- ===== src/Storage/Reference.antt =====
-- Values of the parameters of `Storage.Redb`, which show that their laws can hold together: an array
-- for the log, a function for each table with text keys, and length-prefixed lists for snapshots.
use Prim.Native.String.{String}
use text.Mathlib.Text.{◌==◌ as str_eq}
use text.Mathlib.TextEquality.{eq_iff}
use text.Mathlib.TextPositions.{eq_refl}
use iroh_raft.Common.{
  ℕ, zero, suc, ◌+◌, ◌<◌, ◌≡◌, ◌≢◌, refl, ap, ◌∙◌, inl, inr, Bool, false, Bool-cases, List, [], ◌∷◌,
  ◌++◌, Option, none, some, arith, length, take, drop, take-append, drop-append, All, ◌==◌,
  if◌then◌else◌,
}
use iroh_raft.Storage.Codec.{Bytes, ConfState, flag_byte}
use iroh_raft.Storage.Redb.{
  Table, OrderedTable, SnapshotMetadata, Snapshot, Crates, has, is_some, IsAscending,
}

abbrev Array : Type 0
Array = List (Option Bytes)

abbrev get : Array → ℕ → Option Bytes
get [] k = none
get (x ∷ xs) zero = x
get (x ∷ xs) (suc k) = get xs k

abbrev insert : Array → ℕ → Bytes → Array
insert [] zero v = some v ∷ []
insert [] (suc k) v = none ∷ insert [] k v
insert (x ∷ xs) zero v = some v ∷ xs
insert (x ∷ xs) (suc k) v = x ∷ insert xs k v

abbrev remove : Array → ℕ → Array
remove [] k = []
remove (x ∷ xs) zero = none ∷ xs
remove (x ∷ xs) (suc k) = x ∷ remove xs k

abbrev keys_from : ℕ → Array → List ℕ
keys_from n [] = []
keys_from n (none ∷ xs) = keys_from (suc n) xs
keys_from n (some v ∷ xs) = n ∷ keys_from (suc n) xs

pub get-insert_self : (t : Array) (k : ℕ) (v : Bytes) → get (insert t k v) k ≡ some v
get-insert_self [] zero v = refl
get-insert_self [] (suc k) v = get-insert_self [] k v
get-insert_self (x ∷ xs) zero v = refl
get-insert_self (x ∷ xs) (suc k) v = get-insert_self xs k v

pub get-insert_ne : (t : Array) (k j : ℕ) (v : Bytes) → k ≢ j → get (insert t k v) j ≡ get t j
get-insert_ne [] zero zero v h = absurd (h refl)
get-insert_ne [] zero (suc j) v h = refl
get-insert_ne [] (suc k) zero v h = refl
get-insert_ne [] (suc k) (suc j) v h = get-insert_ne [] k j v (λ e. h (ap suc e))
get-insert_ne (x ∷ xs) zero zero v h = absurd (h refl)
get-insert_ne (x ∷ xs) zero (suc j) v h = refl
get-insert_ne (x ∷ xs) (suc k) zero v h = refl
get-insert_ne (x ∷ xs) (suc k) (suc j) v h = get-insert_ne xs k j v (λ e. h (ap suc e))

pub get-remove_self : (t : Array) (k : ℕ) → get (remove t k) k ≡ none
get-remove_self [] k = refl
get-remove_self (x ∷ xs) zero = refl
get-remove_self (x ∷ xs) (suc k) = get-remove_self xs k

pub get-remove_ne : (t : Array) (k j : ℕ) → k ≢ j → get (remove t k) j ≡ get t j
get-remove_ne [] k j h = refl
get-remove_ne (x ∷ xs) zero zero h = absurd (h refl)
get-remove_ne (x ∷ xs) zero (suc j) h = refl
get-remove_ne (x ∷ xs) (suc k) zero h = refl
get-remove_ne (x ∷ xs) (suc k) (suc j) h = get-remove_ne xs k j (λ e. h (ap suc e))

keys_from-above : (m n : ℕ) (t : Array) → m < n → All (λ y. m < y) (keys_from n t)
keys_from-above m n [] h = tt
keys_from-above m n (none ∷ xs) h = keys_from-above m (suc n) xs (omega arith)
keys_from-above m n (some v ∷ xs) h = (h, keys_from-above m (suc n) xs (omega arith))

pub keys_from-IsAscending : (n : ℕ) (t : Array) → IsAscending (keys_from n t)
keys_from-IsAscending n [] = tt
keys_from-IsAscending n (none ∷ xs) = keys_from-IsAscending (suc n) xs
keys_from-IsAscending n (some v ∷ xs) =
    (keys_from-above n (suc n) xs (omega arith), keys_from-IsAscending (suc n) xs)

has-keys_from_below : (n k : ℕ) (t : Array) → k < n → has (keys_from n t) k ≡ false
has-keys_from_below n k [] h = refl
has-keys_from_below n k (none ∷ xs) h = has-keys_from_below (suc n) k xs (omega arith)
has-keys_from_below n k (some v ∷ xs) h = ground (arith, has-keys_from_below (suc n) k xs)

has-keys_from : (n k : ℕ) (t : Array) → has (keys_from n t) (n + k) ≡ is_some (get t k)
has-keys_from n k [] = refl
has-keys_from n zero (none ∷ xs) = has-keys_from_below (suc n) (n + 0) xs (omega arith)
has-keys_from n zero (some v ∷ xs) = ground arith
has-keys_from n (suc k) (none ∷ xs) =
    let shift : n + suc k ≡ suc n + k = omega arith in rw shift (has-keys_from (suc n) k xs)
has-keys_from n (suc k) (some v ∷ xs) =
    let shift : n + suc k ≡ suc n + k = omega arith in
    let rest : has (keys_from (suc n) xs) (n + suc k) ≡ is_some (get xs k) =
      rw shift (has-keys_from (suc n) k xs) in
    ground (arith, rest)

abbrev array_table : Table ℕ
array_table = record {
  Content = Array;
  empty = [];
  get = get;
  insert = insert;
  remove = remove;
  get-empty = λ k. refl;
  get-insert_self = get-insert_self;
  get-insert_ne = get-insert_ne;
  get-remove_self = get-remove_self;
  get-remove_ne = get-remove_ne;
}

pub has-keys : (t : Array) (k : ℕ) → has (keys_from 0 t) k ≡ is_some (get t k)
has-keys t k =
    let start : k ≡ 0 + k = omega arith in ap (has (keys_from 0 t)) start ∙ has-keys_from 0 k t

abbrev array_log : OrderedTable
array_log = record {
  table = array_table;
  keys = keys_from 0;
  has-keys = has-keys;
  keys-IsAscending = keys_from-IsAscending 0;
}

abbrev Slots : Type 0
Slots = String → Option Bytes

abbrev write : Slots → String → Option Bytes → Slots
write t k v j = if str_eq k j then v else t j

pub write_self : (t : Slots) (k : String) (v : Option Bytes) → write t k v k ≡ v
write_self t k v = rw (eq_refl k)

pub write_ne : (t : Slots) (k j : String) (v : Option Bytes) → k ≢ j → write t k v j ≡ t j
write_ne t k j v h = elim (Bool-cases (str_eq k j)) [
  | inl e ↦ absurd (h ((eq_iff k j).0 e))
  | inr e ↦ rw e
]

abbrev function_slots : Table String
function_slots = record {
  Content = Slots;
  empty = λ k. none;
  get = λ t k. t k;
  insert = λ t k v. write t k (some v);
  remove = λ t k. write t k none;
  get-empty = λ k. refl;
  get-insert_self = λ t k v. write_self t k (some v);
  get-insert_ne = λ t k j v h. write_ne t k j (some v) h;
  get-remove_self = λ t k. write_self t k none;
  get-remove_ne = λ t k j h. write_ne t k j none h;
}

unfoldable pub put : List ℕ → Bytes → Bytes
put xs rest = length xs ∷ (xs ++ rest)

abbrev encode_conf : Option ConfState → Bytes → Bytes
encode_conf none rest = 0 ∷ rest
encode_conf (some cs) rest =
    1
    ∷ flag_byte cs.auto_leave
    ∷ put cs.voters (put cs.learners (put cs.voters_outgoing (put cs.learners_next rest)))

abbrev encode_metadata : Option SnapshotMetadata → Bytes → Bytes
encode_metadata none rest = 0 ∷ rest
encode_metadata (some m) rest = 1 ∷ m.index ∷ m.term ∷ encode_conf m.conf_state rest

abbrev encode : Snapshot → Bytes
encode s = encode_metadata s.metadata s.payload

unfoldable pub pull : Bytes → Option (List ℕ × Bytes)
pull [] = none
pull (n ∷ rest) = some (take n rest, drop n rest)

pull-put : (xs : List ℕ) (rest : Bytes) → pull (put xs rest) ≡ some (xs, rest)
unfolding pull put
pull-put xs rest = rw (take-append xs rest, drop-append xs rest)

infixl 5 ◌>>=◌
abbrev ◌>>=◌ : {A B : Type 0} → Option A → (A → Option B) → Option B
none >>= f = none
some a >>= f = f a

abbrev decode_lists : ℕ → Bytes → Option (ConfState × Bytes)
decode_lists flag bytes = do
  (voters, r1) ← pull bytes
  (learners, r2) ← pull r1
  (outgoing, r3) ← pull r2
  (next, r4) ← pull r3
  some (
    record {
      voters = voters;
      learners = learners;
      voters_outgoing = outgoing;
      learners_next = next;
      auto_leave = flag == 1;
    },
    r4,
  )

abbrev decode_conf : Bytes → Option (Option ConfState × Bytes)
decode_conf (zero ∷ rest) = some (none, rest)
decode_conf (suc n ∷ flag ∷ rest) = do (cs, r) ← decode_lists flag rest; some (some cs, r)
decode_conf _ = none

abbrev decode : Bytes → Option Snapshot
decode (zero ∷ rest) = some (record { payload = rest; metadata = none })
decode (suc n ∷ index ∷ term ∷ rest) = do
  (conf, r) ← decode_conf rest
  some (record {
    payload = r;
    metadata = some (record { conf_state = conf; index = index; term = term });
  })
decode _ = none

decode_lists-put :
    (cs : ConfState) (rest : Bytes)
    → decode_lists
        (flag_byte cs.auto_leave)
        (put cs.voters (put cs.learners (put cs.voters_outgoing (put cs.learners_next rest))))
      ≡ some (cs, rest)
decode_lists-put cs rest =
    rw
      (
        pull-put cs.voters (put cs.learners (put cs.voters_outgoing (put cs.learners_next rest))),
        pull-put cs.learners (put cs.voters_outgoing (put cs.learners_next rest)),
        pull-put cs.voters_outgoing (put cs.learners_next rest),
        pull-put cs.learners_next rest,
      )
      (ground arith)

pub decode-encode_parts :
    (metadata : Option SnapshotMetadata) (payload : Bytes)
    → decode (encode_metadata metadata payload)
      ≡ some (record { payload = payload; metadata = metadata })
decode-encode_parts none payload = refl
decode-encode_parts (some m) payload = with_conf m.conf_state
  where
    with_conf :
        (conf : Option ConfState)
        → decode (1 ∷ m.index ∷ m.term ∷ encode_conf conf payload)
          ≡ some (record {
            payload = payload;
            metadata = some (record { conf_state = conf; index = m.index; term = m.term });
          })
    with_conf none = refl
    with_conf (some cs) = rw (decode_lists-put cs payload)

-- The crates with a given pattern of redb errors.
abbrev pub crates_with : (String → ℕ → Bool) → Crates
crates_with faults = record {
  log = array_log;
  slots = function_slots;
  snapshots = record {
    encode = encode;
    decode = decode;
    decode-encode = λ s. decode-encode_parts s.metadata s.payload;
  };
  faults = faults;
}

-- redb without errors.
abbrev pub crates : Crates
crates = crates_with (λ op key. false)
