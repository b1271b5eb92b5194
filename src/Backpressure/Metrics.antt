-- ===== src/Backpressure/Metrics.antt =====
-- The counters of a channel: `AtomicU64` and `AtomicUsize`, which wrap at 64 bits.
use iroh_raft.Common.{ℕ, ◌+◌, ◌-◌, ◌*◌, ◌/◌, ◌%◌, ◌==◌, max, if◌then◌else◌}
use iroh_raft.Common.Bytes.{u64_mod}

pub record BackpressureMetrics : Type 0 where
  pub total_sent : ℕ
  pub total_received : ℕ
  pub total_dropped : ℕ
  pub total_timeouts : ℕ
  pub current_pending : ℕ
  pub max_pending_reached : ℕ
  pub avg_latency_ms : ℕ

abbrev pub no_metrics : BackpressureMetrics
no_metrics = record {
  total_sent = 0;
  total_received = 0;
  total_dropped = 0;
  total_timeouts = 0;
  current_pending = 0;
  max_pending_reached = 0;
  avg_latency_ms = 0;
}

-- `fetch_add(1)` and `fetch_sub(1)`.
abbrev pub up : ℕ → ℕ
up n = (n + 1) % u64_mod

abbrev pub down : ℕ → ℕ
down n = (n + u64_mod - 1) % u64_mod

abbrev pub record_sent : BackpressureMetrics → BackpressureMetrics
record_sent m = record m { total_sent = up m.total_sent }

abbrev pub record_received : BackpressureMetrics → BackpressureMetrics
record_received m = record m {
  total_received = up m.total_received;
  current_pending = down m.current_pending;
}

abbrev pub record_dropped : BackpressureMetrics → BackpressureMetrics
record_dropped m = record m {
  total_dropped = up m.total_dropped;
  current_pending = down m.current_pending;
}

abbrev pub record_timeout : BackpressureMetrics → BackpressureMetrics
record_timeout m = record m { total_timeouts = up m.total_timeouts }

-- The loop of the compare-exchange leaves the larger of the two counts.
abbrev pub record_pending : BackpressureMetrics → ℕ → BackpressureMetrics
record_pending m count = record m {
  current_pending = count;
  max_pending_reached = max m.max_pending_reached count;
}

abbrev pub record_latency : BackpressureMetrics → ℕ → BackpressureMetrics
record_latency m latency_ms = record m {
  avg_latency_ms =
      if m.avg_latency_ms == 0
      then latency_ms
      else (m.avg_latency_ms * 7 + latency_ms) % u64_mod / 8;
}
