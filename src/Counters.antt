-- ===== src/Counters.antt =====
-- src/receiver.rs: the counters of the store. Each is a `u64`, and `+=` wraps in a release build.
use spanfall.Prelude.{ℕ, ◌+◌, ◌%◌, ◌^◌}

pub record Counters : Type 0 where
  pub duplicate_span : ℕ
  pub attribute_key_cap_hit : ℕ
  pub late_span_after_eviction : ℕ
  pub evicted_traces : ℕ
  pub malformed_span : ℕ

-- `Counters::default()`.
abbrev pub zeros : Counters
zeros = record {
  duplicate_span = 0;
  attribute_key_cap_hit = 0;
  late_span_after_eviction = 0;
  evicted_traces = 0;
  malformed_span = 0;
}

abbrev pub add_u64 : ℕ → ℕ → ℕ
add_u64 a b = (a + b) % 2 ^ 64
