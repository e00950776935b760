-- ===== src/Correlation/Answers.antt =====
-- A response is accepted for a request exactly when the two name the same subject.
use storage_node_interface_p.Prelude.{ℕ, ◌≡◌, ◌↔◌, arith, ok, ◌≢◌}
use storage_node_interface_p.Prelude.Eq.{nat_eq, list_eq, list_beq_iff}
use storage_node_interface_p.Merkle.{Bytes}
use storage_node_interface_p.Text.{Text}
use storage_node_interface_p.Codec.{
  ShardResponseV2, chunk_data, push_ack, manifest_push_ack, manifest_data, ShardResponseVersioned,
  v1, v2,
}
use storage_node_interface_p.Correlation.{
  OutboundRequestKind, v1_chunk, v1_manifest, v1_push, v2_pull, v2_push, v2_manifest_push,
  v2_manifest_pull, check, cid_eq, root_eq,
}

-- What a message is about: the protocol and operation, with the identity that they carry.
pub data Subject : Type 0 where
  v1_cid : Text → Subject
  chunk : Text → Subject
  stored_chunk : Bytes → ℕ → Subject
  stored_manifest : Bytes → Subject
  manifest : Bytes → Subject

abbrev pub request_subject : OutboundRequestKind → Subject
request_subject (v1_chunk cid) = v1_cid cid
request_subject (v1_manifest root_hex cid) = v1_cid cid
request_subject (v1_push cid) = v1_cid cid
request_subject (v2_pull cid) = chunk cid
request_subject (v2_push merkle_root chunk_index) = stored_chunk merkle_root chunk_index
request_subject (v2_manifest_push merkle_root) = stored_manifest merkle_root
request_subject (v2_manifest_pull merkle_root) = manifest merkle_root

abbrev pub response_subject : ShardResponseVersioned → Subject
response_subject (v1 resp) = v1_cid resp.cid
response_subject (v2 (chunk_data cid offset total payload error)) = chunk cid
response_subject (v2 (push_ack merkle_root chunk_index error)) =
    stored_chunk merkle_root chunk_index
response_subject (v2 (manifest_push_ack merkle_root error)) = stored_manifest merkle_root
response_subject (v2 (manifest_data merkle_root bytes error)) = manifest merkle_root

cid_eq_iff : (a b : Text) → (cid_eq a b ≡ ok tt) ↔ (a ≡ b)
unfolding cid_eq
cid_eq_iff a b = ground (arith, list_beq_iff a b)

root_eq_iff : (a b : Bytes) → (root_eq a b ≡ ok tt) ↔ (a ≡ b)
unfolding root_eq
root_eq_iff a b = ground (arith, list_beq_iff a b)

v1_cid-ne-v2 : (cid : Text) (r : ShardResponseV2) → v1_cid cid ≢ response_subject (v2 r)
v1_cid-ne-v2 cid (chunk_data got offset total payload error) = λ e. cc
v1_cid-ne-v2 cid (push_ack root i error) = λ e. cc
v1_cid-ne-v2 cid (manifest_push_ack root error) = λ e. cc
v1_cid-ne-v2 cid (manifest_data root bytes error) = λ e. cc

-- A response passes `check` for a request exactly when the two have the same subject: the same
-- protocol, operation and identity.
pub check_iff :
    (kind : OutboundRequestKind) (response : ShardResponseVersioned)
    → (check kind response ≡ ok tt) ↔ (request_subject kind ≡ response_subject response)
unfolding check
check_iff (v1_chunk cid) (v1 resp) = ground (arith, cid_eq_iff cid resp.cid)
check_iff (v1_chunk cid) (v2 r) = ground (arith, v1_cid-ne-v2 cid r)
check_iff (v1_manifest root_hex cid) (v1 resp) = ground (arith, cid_eq_iff cid resp.cid)
check_iff (v1_manifest root_hex cid) (v2 r) = ground (arith, v1_cid-ne-v2 cid r)
check_iff (v1_push cid) (v1 resp) = ground (arith, cid_eq_iff cid resp.cid)
check_iff (v1_push cid) (v2 r) = ground (arith, v1_cid-ne-v2 cid r)
check_iff (v2_pull cid) (v2 (chunk_data got offset total payload error)) =
    ground (arith, cid_eq_iff cid got)
check_iff (v2_push root i) (v2 (push_ack got j error)) = ground (arith, root_eq_iff root got)
check_iff (v2_manifest_push root) (v2 (manifest_push_ack got error)) =
    ground (arith, root_eq_iff root got)
check_iff (v2_manifest_pull root) (v2 (manifest_data got bytes error)) =
    ground (arith, root_eq_iff root got)
check_iff kind response = ground arith
