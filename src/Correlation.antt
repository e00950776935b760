-- ===== src/Correlation.antt =====
-- crates/sum-net/src/correlation.rs: what an outbound request was, and whether a response answers
-- it. A peer id and a libp2p request id are numbers.
pub mod Tracker
pub mod Answers
pub mod Slots
pub mod Traces
pub mod Poisoning
pub mod Awaited
mod Examples
use storage_node_interface_p.Prelude.{
  ℕ, Bool, true, false, ◌&&◌, not, Option, none, some, List, [], ◌∷◌, ◌++◌, nat_beq, if◌then◌else◌,
  Result, ok, err, ◌>>=◌, ◌>>◌, refuse_if, ◌≡◌, ◌↔◌, arith,
}
use storage_node_interface_p.Prelude.Eq.{Eq, ◌==◌, nat_eq, list_eq}
use storage_node_interface_p.Merkle.{Bytes}
use storage_node_interface_p.Text.{Text, text, strip_prefix, hex_root}
use storage_node_interface_p.Codec.{
  ShardRequest, ShardRequestV2, pull, push, manifest_push, manifest_pull, ShardResponse,
  ShardResponseV2, chunk_data, push_ack, manifest_push_ack, manifest_data, ShardResponseVersioned,
  v1, v2, shard_xfer_protocol_v1, shard_xfer_protocol_v2,
}

abbrev pub manifest_cid_prefix : Text
manifest_cid_prefix = text "manifest:"

pub data RequestDomain : Type 0 where
  shard_xfer_v1 shard_xfer_v2 : RequestDomain

abbrev pub domain_protocol : RequestDomain → Text
domain_protocol shard_xfer_v1 = shard_xfer_protocol_v1
domain_protocol shard_xfer_v2 = shard_xfer_protocol_v2

abbrev pub domain_label : RequestDomain → Text
domain_label shard_xfer_v1 = text "shard-xfer-v1"
domain_label shard_xfer_v2 = text "shard-xfer-v2"

pub record OutboundKey : Type 0 where
  pub domain : RequestDomain
  pub id : ℕ

abbrev pub domain_beq : RequestDomain → RequestDomain → Bool
domain_beq shard_xfer_v1 shard_xfer_v1 = true
domain_beq shard_xfer_v2 shard_xfer_v2 = true
domain_beq _ _ = false

domain_beq_iff : (a b : RequestDomain) → (domain_beq a b ≡ true) ↔ (a ≡ b)
domain_beq_iff a b = ground arith

abbrev pub key_beq : OutboundKey → OutboundKey → Bool
key_beq a b = domain_beq a.domain b.domain && nat_beq a.id b.id

pub key_beq_iff : (a b : OutboundKey) → (key_beq a b ≡ true) ↔ (a ≡ b)
key_beq_iff a b = ground (arith, domain_beq_iff a.domain b.domain)

instance abbrev pub key_eq : Eq OutboundKey
key_eq = record { beq = key_beq; beq_iff = key_beq_iff }

pub data OutboundRequestKind : Type 0 where
  -- cid
  v1_chunk : Text → OutboundRequestKind
  -- root_hex, cid
  v1_manifest : Text → Text → OutboundRequestKind
  v1_push : Text → OutboundRequestKind
  v2_pull : Text → OutboundRequestKind
  -- merkle_root, chunk_index
  v2_push : Bytes → ℕ → OutboundRequestKind
  v2_manifest_push : Bytes → OutboundRequestKind
  v2_manifest_pull : Bytes → OutboundRequestKind

unfoldable pub from_v1 : ShardRequest → OutboundRequestKind
from_v1 req = elim req.push_data [
  | some pushed ↦ v1_push req.cid
  | none ↦ elim (strip_prefix manifest_cid_prefix req.cid) [
    | some root_hex ↦ v1_manifest root_hex req.cid
    | none ↦ v1_chunk req.cid
  ]
]

unfoldable pub from_v2 : ShardRequestV2 → OutboundRequestKind
from_v2 (pull cid offset max_bytes) = v2_pull cid
from_v2 (push payload merkle_root chunk_index merkle_path) = v2_push merkle_root chunk_index
from_v2 (manifest_push merkle_root manifest_bytes) = v2_manifest_push merkle_root
from_v2 (manifest_pull merkle_root) = v2_manifest_pull merkle_root

abbrev pub kind_protocol : OutboundRequestKind → Text
kind_protocol (v1_chunk cid) = shard_xfer_protocol_v1
kind_protocol (v1_manifest root_hex cid) = shard_xfer_protocol_v1
kind_protocol (v1_push cid) = shard_xfer_protocol_v1
kind_protocol (v2_pull cid) = shard_xfer_protocol_v2
kind_protocol (v2_push merkle_root chunk_index) = shard_xfer_protocol_v2
kind_protocol (v2_manifest_push merkle_root) = shard_xfer_protocol_v2
kind_protocol (v2_manifest_pull merkle_root) = shard_xfer_protocol_v2

abbrev pub kind_label : OutboundRequestKind → Text
kind_label (v1_chunk cid) = text "v1-chunk-pull"
kind_label (v1_manifest root_hex cid) = text "v1-manifest-pull"
kind_label (v1_push cid) = text "v1-chunk-push"
kind_label (v2_pull cid) = text "v2-chunk-pull"
kind_label (v2_push merkle_root chunk_index) = text "v2-chunk-push"
kind_label (v2_manifest_push merkle_root) = text "v2-manifest-push"
kind_label (v2_manifest_pull merkle_root) = text "v2-manifest-pull"

abbrev pub response_label : ShardResponseVersioned → Text
response_label (v1 resp) = text "v1-response"
response_label (v2 (chunk_data cid offset total payload error)) = text "v2-data"
response_label (v2 (push_ack merkle_root chunk_index error)) = text "v2-push-ack"
response_label (v2 (manifest_push_ack merkle_root error)) = text "v2-manifest-push-ack"
response_label (v2 (manifest_data merkle_root bytes error)) = text "v2-manifest-data"

pub data CorrelationError : Type 0 where
  unknown_request_id : CorrelationError
  -- the labels of the first request and of the second
  poisoned_request_id : Text → Text → CorrelationError
  -- expected, got, here and below
  peer_mismatch : ℕ → ℕ → CorrelationError
  response_kind_mismatch : Text → Text → CorrelationError
  cid_mismatch : Text → Text → CorrelationError
  root_mismatch : Text → Text → CorrelationError
  chunk_index_mismatch : ℕ → ℕ → CorrelationError

unfoldable pub cid_eq : Text → Text → Result CorrelationError (Unit {0})
cid_eq expected got = if expected == got then ok tt else err (cid_mismatch expected got)

unfoldable pub root_eq : Bytes → Bytes → Result CorrelationError (Unit {0})
root_eq expected got =
    if expected == got then ok tt else err (root_mismatch (hex_root expected) (hex_root got))

unfoldable pub check :
    OutboundRequestKind → ShardResponseVersioned → Result CorrelationError (Unit {0})
unfolding cid_eq root_eq
check (v1_chunk cid) (v1 resp) = cid_eq cid resp.cid
check (v1_manifest root_hex cid) (v1 resp) = cid_eq cid resp.cid
check (v1_push cid) (v1 resp) = cid_eq cid resp.cid
check (v2_pull cid) (v2 (chunk_data got offset total payload error)) = cid_eq cid got
check (v2_push merkle_root chunk_index) (v2 (push_ack got_root got_index error)) = do
  root_eq merkle_root got_root
  refuse_if (not (chunk_index == got_index)) (chunk_index_mismatch chunk_index got_index)
check (v2_manifest_push merkle_root) (v2 (manifest_push_ack got error)) = root_eq merkle_root got
check (v2_manifest_pull merkle_root) (v2 (manifest_data got bytes error)) = root_eq merkle_root got
check expected got = err (response_kind_mismatch (kind_label expected) (response_label got))

-- The identity of the request that a response answers, as it was recorded.
pub record OutboundOrigin : Type 0 where
  pub peer : ℕ
  pub protocol : Text
  pub kind : OutboundRequestKind

unfoldable pub new_origin : ℕ → OutboundRequestKind → OutboundOrigin
new_origin peer kind = record { peer = peer; protocol = kind_protocol kind; kind = kind }

unfoldable pub requested_manifest_root_hex : OutboundOrigin → Option Text
requested_manifest_root_hex origin = of_kind origin.kind
  where
    of_kind : OutboundRequestKind → Option Text
    of_kind (v1_manifest root_hex cid) = some root_hex
    of_kind _ = none

unfoldable pub requested_manifest_root : OutboundOrigin → Option Bytes
requested_manifest_root origin = of_kind origin.kind
  where
    of_kind : OutboundRequestKind → Option Bytes
    of_kind (v2_manifest_pull merkle_root) = some merkle_root
    of_kind _ = none

unfoldable pub requested_cid : OutboundOrigin → Option Text
requested_cid origin = of_kind origin.kind
  where
    of_kind : OutboundRequestKind → Option Text
    of_kind (v1_chunk cid) = some cid
    of_kind (v1_manifest root_hex cid) = some cid
    of_kind (v1_push cid) = some cid
    of_kind (v2_pull cid) = some cid
    of_kind _ = none
