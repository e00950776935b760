-- ===== src/Codec.antt =====
-- crates/sum-net/src/codec.rs: the messages of the two shard protocols, and the length-prefixed
-- frames they travel in. Sockets are lists of the bytes that arrive; serialization is not modelled.
pub mod Frame
pub mod RoundTrip
mod Examples
use storage_node_interface_p.Prelude.{ℕ, Option, List}
use storage_node_interface_p.Merkle.{Bytes}
use storage_node_interface_p.Text.{Text, text}

abbrev pub shard_xfer_protocol_v1 : Text
shard_xfer_protocol_v1 = text "/sum/storage/v1"

abbrev pub shard_xfer_protocol_v2 : Text
shard_xfer_protocol_v2 = text "/sum/storage/v2"

pub record ShardRequest : Type 0 where
  pub cid : Text
  pub offset : Option ℕ
  pub max_bytes : Option ℕ
  pub push_data : Option Bytes

pub record ShardResponse : Type 0 where
  pub cid : Text
  pub offset : ℕ
  pub total_bytes : ℕ
  pub payload : Bytes
  pub error : Option Text

pub data ShardRequestV2 : Type 0 where
  -- cid, offset, max_bytes
  pull : Text → ℕ → ℕ → ShardRequestV2
  -- data, merkle_root, chunk_index, merkle_path
  push : Bytes → Bytes → ℕ → List Bytes → ShardRequestV2
  -- merkle_root, manifest_bytes
  manifest_push : Bytes → Bytes → ShardRequestV2
  manifest_pull : Bytes → ShardRequestV2

pub data ShardResponseV2 : Type 0 where
  -- cid, offset, total_bytes, data, error
  chunk_data : Text → ℕ → ℕ → Bytes → Option Text → ShardResponseV2
  -- merkle_root, chunk_index, error
  push_ack : Bytes → ℕ → Option Text → ShardResponseV2
  -- merkle_root, error
  manifest_push_ack : Bytes → Option Text → ShardResponseV2
  -- merkle_root, manifest_bytes, error
  manifest_data : Bytes → Bytes → Option Text → ShardResponseV2

pub data ShardResponseVersioned : Type 0 where
  v1 : ShardResponse → ShardResponseVersioned
  v2 : ShardResponseV2 → ShardResponseVersioned
