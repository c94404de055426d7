-- ===== src/Ingest/Receiver.antt =====
-- src/ingest/receiver_state.rs: the ring of rejected requests and the counts of arrived spans.
pub mod Ring
use spanfall.Prelude.{
  ℕ, ◌+◌, ◌%◌, ◌^◌, Bool, true, false, List, [], ◌∷◌, ◌++◌, nat_eq, if◌then◌else◌, length, drop,
}
use spanfall.Prelude.Text.{Text}
use spanfall.Counters.{add_u64}

abbrev pub reject_ring_capacity : ℕ
reject_ring_capacity = 100

pub record RejectRecord : Type 0 where
  pub reason : Text
  pub at_unix_nano : ℕ

pub data Transport : Type 0 where
  grpc_v4317 http_protobuf_v4318 http_json_v4318 : Transport

-- The field of each transport, a `u64`.
pub record ArrivalCounts : Type 0 where
  pub grpc : ℕ
  pub http_protobuf : ℕ
  pub http_json : ℕ

unfoldable pub record_arrival : ArrivalCounts → Transport → ℕ → ArrivalCounts
record_arrival c grpc_v4317 n = record c { grpc = add_u64 c.grpc n }
record_arrival c http_protobuf_v4318 n = record c { http_protobuf = add_u64 c.http_protobuf n }
record_arrival c http_json_v4318 n = record c { http_json = add_u64 c.http_json n }

-- A `VecDeque`, its front first.
pub record RejectLog : Type 0 where
  pub ring : List RejectRecord

unfoldable pub push : RejectLog → Text → ℕ → RejectLog
push log reason at_unix_nano =
    let ring =
      if nat_eq (length log.ring) reject_ring_capacity then drop 1 log.ring else log.ring in
    record { ring = ring ++ record { reason = reason; at_unix_nano = at_unix_nano } ∷ [] }

unfoldable pub recent : RejectLog → List RejectRecord
recent log = log.ring

unfoldable pub len : RejectLog → ℕ
len log = length log.ring

unfoldable pub is_empty : RejectLog → Bool
is_empty log = nat_eq (length log.ring) 0

pub record ReceiverState : Type 0 where
  pub rejects : RejectLog
  pub arrivals : ArrivalCounts

-- `ReceiverState::default()`.
abbrev pub default : ReceiverState
default = record {
  rejects = record { ring = [] };
  arrivals = record { grpc = 0; http_protobuf = 0; http_json = 0 };
}
