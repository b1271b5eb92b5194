-- ===== src/LockFree/Aggregator.antt =====
-- src/lock_free.rs: `LockFreeStatsAggregator`, counters, histograms and gauges by name.
use Prim.Native.String.{String}
use iroh_raft.Common.{
  ℕ, ◌+◌, ◌%◌, ◌≡◌, refl, ap, ◌∙◌, inl, inr, List, [], map, Option, none, some, if◌then◌else◌,
  Bool-cases,
}
use iroh_raft.Common.Bytes.{u64_mod}
use iroh_raft.Common.Equality.{string_eq}
use iroh_raft.Common.Maps.{lookup, insert, lookup-insert}
use iroh_raft.LockFree.{LockFreeCounter, new, increment, get}
use iroh_raft.LockFree.Histogram.{LockFreeHistogram, new_exponential, record_value}

pub record LockFreeStatsAggregator : Type 0 where
  pub message_counts : List (String × LockFreeCounter)
  pub latency_histograms : List (String × LockFreeHistogram)
  pub error_counts : List (String × LockFreeCounter)
  pub gauges : List (String × ℕ)

abbrev pub new_aggregator : LockFreeStatsAggregator
new_aggregator = record {
  message_counts = [];
  latency_histograms = [];
  error_counts = [];
  gauges = [];
}

abbrev pub counter_or_new : Option LockFreeCounter → LockFreeCounter
counter_or_new none = new
counter_or_new (some c) = c

abbrev pub histogram_or_new : Option LockFreeHistogram → LockFreeHistogram
histogram_or_new none = new_exponential
histogram_or_new (some h) = h

-- `entry().or_insert_with(LockFreeCounter::new).increment()`.
unfoldable pub increment_entry :
    String → List (String × LockFreeCounter) → List (String × LockFreeCounter)
unfolding lookup insert
increment_entry name counters =
    insert name (increment (counter_or_new (lookup name counters))) counters

unfoldable pub increment_counter : LockFreeStatsAggregator → String → LockFreeStatsAggregator
unfolding increment_entry
increment_counter s name = record s { message_counts = increment_entry name s.message_counts }

unfoldable pub increment_error : LockFreeStatsAggregator → String → LockFreeStatsAggregator
unfolding increment_entry
increment_error s name = record s { error_counts = increment_entry name s.error_counts }

-- The duration is given in microseconds, at 64 bits; `none` stands for a panic of the histogram.
unfoldable pub record_latency :
    LockFreeStatsAggregator → String → ℕ → Option LockFreeStatsAggregator
unfolding record_value lookup insert
record_latency s name micros =
    elim (record_value (histogram_or_new (lookup name s.latency_histograms)) (micros % u64_mod)) [
      | none ↦ none
      | some h ↦ some (record s { latency_histograms = insert name h s.latency_histograms })
    ]

unfoldable pub set_gauge : LockFreeStatsAggregator → String → ℕ → LockFreeStatsAggregator
unfolding insert
set_gauge s name value = record s { gauges = insert name value s.gauges }

abbrev pub get_count : Option LockFreeCounter → Option ℕ
get_count none = none
get_count (some c) = some (get c)

unfoldable pub get_counter : LockFreeStatsAggregator → String → Option ℕ
unfolding lookup
get_counter s name = get_count (lookup name s.message_counts)

unfoldable pub get_error_count : LockFreeStatsAggregator → String → Option ℕ
unfolding lookup
get_error_count s name = get_count (lookup name s.error_counts)

-- A snapshot of a histogram is the histogram.
unfoldable pub get_latency_histogram : LockFreeStatsAggregator → String → Option LockFreeHistogram
unfolding lookup
get_latency_histogram s name = lookup name s.latency_histograms

unfoldable pub get_gauge : LockFreeStatsAggregator → String → Option ℕ
unfolding lookup
get_gauge s name = lookup name s.gauges

unfoldable pub get_all_counters : LockFreeStatsAggregator → List (String × ℕ)
get_all_counters s =
    map (λ (entry : String × LockFreeCounter). (entry.0, get entry.1)) s.message_counts

unfoldable pub get_all_gauges : LockFreeStatsAggregator → List (String × ℕ)
get_all_gauges s = s.gauges

abbrev pub value_or_zero : Option ℕ → ℕ
value_or_zero none = 0
value_or_zero (some n) = n

get_count_value :
    (o : Option LockFreeCounter) → get (counter_or_new o) ≡ value_or_zero (get_count o)
get_count_value none = refl
get_count_value (some c) = refl

-- An increment raises the counter of its name, from 0 if there is none, and no other counter and no error counter.
pub get_counter-increment_counter :
    (s : LockFreeStatsAggregator) (name other : String)
    → (get_counter (increment_counter s name) other ≡ (
        if string_eq.beq name other
        then some ((value_or_zero (get_counter s name) + 1) % u64_mod)
        else get_counter s other))
      × (get_error_count (increment_counter s name) other ≡ get_error_count s other)
unfolding get_counter increment_counter increment_entry get_error_count
get_counter-increment_counter s name other =
    let o = lookup name s.message_counts in
    (
      ap get_count (lookup-insert name other (increment (counter_or_new o)) s.message_counts)
          ∙ elim (Bool-cases (string_eq.beq name other)) [
            | inl same ↦ rw same (ap (λ n. some ((n + 1) % u64_mod)) (get_count_value o))
            | inr differ ↦ rw differ refl
          ],
      refl,
    )
