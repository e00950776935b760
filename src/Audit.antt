-- ===== src/Audit.antt =====
-- crates/sum-node/src/repair_audit.rs: whether this archive could answer a challenge on every chunk
-- that the chain assigns to it, and crates/sum-node/src/por_worker.rs: how an answer is built.
-- The manifest index and the chunk store are a parameter. While the files are evaluated the chain
-- gives one answer to each question; the epochs are read again from its later answers. An error is
-- its kind.
pub mod Files
pub mod Verdict
pub mod Answers
mod Examples
use storage_node_interface_p.Prelude.{
  ℕ, Bool, true, false, ◌&&◌, ◌||◌, not, Option, none, some, List, [], ◌∷◌, map, length, get_elem?,
  nat_beq, ltb, if◌then◌else◌, any_by, filter_by, range_from, Result, ok, err,
}
use storage_node_interface_p.Prelude.Eq.{◌==◌, nat_eq, list_eq, contains}
use storage_node_interface_p.Text.{Text}
use storage_node_interface_p.Merkle.{Bytes, build, generate_proof}
use storage_node_interface_p.Verify.{verify_merkle_proof_bytes_for_tree}
use storage_node_interface_p.Rendezvous.{sort, dedup, presorted_addresses, assigned_archives}
use storage_node_interface_p.Manifest.{ChunkDescriptor, DataManifest}
use storage_node_interface_p.PushValidator.Ask.{
  External, Chain, PushReject, StorageFileInfoV2, NodeRecordInfo, is_abandoned,
  filter_active_archives, l1_address_from_base58, root_text,
}

-- A recorded push proof.
pub record PushedProof : Type 0 where
  pub leaf : Bytes
  pub path : List Bytes

-- What the index and the store hold; `none` for a chunk that cannot be read.
pub record LocalStore : Type 0 where
  pub get_by_merkle_root : Bytes → Option DataManifest
  pub v2_pushed_proof : Bytes → ℕ → Option PushedProof
  pub v2_held_cid : Bytes → ℕ → Option Text
  pub get : Text → Option Bytes

pub data AnswerSource : Type 0 where
  public_manifest : AnswerSource
  pushed_proof : AnswerSource

pub record PorAnswer : Type 0 where
  pub chunk_hash : Bytes
  pub merkle_path : List Bytes
  pub source : AnswerSource

pub data AnswerError : Type 0 where
  no_chunk_at_index : AnswerError
  unreadable : AnswerError
  no_pushed_proof : AnswerError
  no_held_record : AnswerError
  not_the_leaf : AnswerError
  does_not_verify : AnswerError

module _ (ext : External) (local : LocalStore) where
  open ext use {blake3}

  unfoldable pub answer_from_pushed_proof : Bytes → ℕ → Result AnswerError PorAnswer
  answer_from_pushed_proof merkle_root chunk_index =
      elim (local.v2_pushed_proof merkle_root chunk_index) [
        | none ↦ err no_pushed_proof
        | some proof ↦ elim (local.v2_held_cid merkle_root chunk_index) [
          | none ↦ err no_held_record
          | some cid ↦ elim (local.get cid) [
            | none ↦ err unreadable
            | some bytes ↦
                if not (blake3 bytes == proof.leaf)
                then err not_the_leaf
                else ok record {
                  chunk_hash = proof.leaf;
                  merkle_path = proof.path;
                  source = pushed_proof;
                }
          ]
        ]
      ]

  -- `manifest_idx.chunk_cid`, then the chunk and its proof. A proof is made of every index that has
  -- a chunk.
  unfoldable pub answer_from_manifest : DataManifest → ℕ → Result AnswerError PorAnswer
  answer_from_manifest manifest chunk_index = elim (get_elem? manifest.chunks chunk_index) [
    | none ↦ err no_chunk_at_index
    | some chunk ↦ elim (local.get chunk.cid) [
      | none ↦ err unreadable
      | some chunk_data ↦
          elim (generate_proof
            (build blake3 (map (λ (c : ChunkDescriptor). c.blake3_hash) manifest.chunks))
            chunk_index) [
              | none ↦ err no_chunk_at_index
              | some proof ↦ ok record {
                chunk_hash = blake3 chunk_data;
                merkle_path = proof;
                source = public_manifest;
              }
            ]
    ]
  ]

  unfoldable pub build_answer : Bytes → ℕ → Result AnswerError PorAnswer
  build_answer merkle_root chunk_index = elim (local.get_by_merkle_root merkle_root) [
    | none ↦ answer_from_pushed_proof merkle_root chunk_index
    | some manifest ↦ answer_from_manifest manifest chunk_index
  ]

pub data ChunkVerdict : Type 0 where
  usable : AnswerSource → ChunkVerdict
  not_usable : AnswerError → ChunkVerdict

pub record ChunkAudit : Type 0 where
  pub chunk_index : ℕ
  pub verdict : ChunkVerdict

pub data AuditError : Type 0 where
  file_info_read : Text → AuditError
  epoch_read : Text → AuditError
  -- latest and assignment_height
  epoch_below : ℕ → ℕ → AuditError
  active_nodes_read : Text → AuditError
  address_decode : AuditError

pub data EpochRecheck : Type 0 where
  unchanged : EpochRecheck
  moved : ℕ → EpochRecheck
  recheck_failed : AuditError → EpochRecheck

-- Each with its merkle_root; an audited file with its epoch, chunks and recheck.
pub data FileAudit : Type 0 where
  audited : Bytes → ℕ → List ChunkAudit → EpochRecheck → FileAudit
  abandoned_file : Bytes → FileAudit
  not_registered_file : Bytes → FileAudit
  failed_file : Bytes → AuditError → FileAudit

pub data AuditVerdict : Type 0 where
  complete : AuditVerdict
  incomplete : AuditVerdict
  error : AuditVerdict
  no_inventory : AuditVerdict

unfoldable pub is_error : FileAudit → Bool
is_error (audited root epoch chunks (recheck_failed e)) = true
is_error (not_registered_file root) = true
is_error (failed_file root e) = true
is_error _ = false

unfoldable pub is_not_usable : ChunkAudit → Bool
is_not_usable c = elim c.verdict [ usable source ↦ false | not_usable e ↦ true ]

unfoldable pub is_incomplete : FileAudit → Bool
is_incomplete (audited root epoch chunks unchanged) = any_by is_not_usable chunks
is_incomplete (audited root epoch chunks recheck) = true
is_incomplete _ = false

-- `AuditReport::verdict`, of the report's files.
unfoldable pub verdict_of : List FileAudit → AuditVerdict
verdict_of files =
    if nat_beq (length files) 0
    then no_inventory
    else if any_by is_error files
    then error
    else if any_by is_incomplete files
    then incomplete
    else complete

unfoldable pub epochs_of : List FileAudit → List ℕ
epochs_of [] = []
epochs_of (audited root epoch chunks recheck ∷ files) = epoch ∷ epochs_of files
epochs_of (_ ∷ files) = epochs_of files

unfoldable pub covered_epochs : List FileAudit → List ℕ
covered_epochs files = dedup (sort (epochs_of files))

unfoldable pub exit_code : AuditVerdict → ℕ
exit_code complete = 0
exit_code incomplete = 3
exit_code error = 1
exit_code no_inventory = 7

module _ (ext : External) where
  unfoldable pub read_epoch : Chain → Bytes → ℕ → Result AuditError ℕ
  read_epoch chain merkle_root assignment_height =
      elim (chain.latest_assignment_epoch (root_text ext merkle_root)) [
        | err e ↦ err (epoch_read e)
        | ok none ↦ ok assignment_height
        | ok (some latest) ↦
            if ltb latest assignment_height
            then err (epoch_below latest assignment_height)
            else ok latest
      ]

  -- The loop over the records.
  unfoldable pub push_addresses : List NodeRecordInfo → Result AuditError (List ℕ)
  push_addresses [] = ok []
  push_addresses (node ∷ nodes) =
      let later = push_addresses nodes in
      elim (l1_address_from_base58 ext node.address) [
        | none ↦ err address_decode
        | some a ↦ elim later [ err e ↦ err e | ok rest ↦ ok (a ∷ rest) ]
      ]

  unfoldable pub read_snapshot : Chain → ℕ → Result AuditError (List ℕ)
  read_snapshot chain epoch = elim (chain.storage_get_active_nodes_at_height epoch) [
    | err e ↦ err (active_nodes_read e)
    | ok raw ↦ elim (push_addresses (filter_active_archives raw)) [
      | err e ↦ err e
      | ok snapshot ↦ ok (presorted_addresses snapshot)
    ]
  ]

  module _ (local : LocalStore) (r archive : ℕ) (merkle_root : Bytes) where
    unfoldable pub audit_chunk : ℕ → ℕ → ChunkAudit
    audit_chunk chunk_count chunk_index = record {
      chunk_index = chunk_index;
      verdict = elim (build_answer ext local merkle_root chunk_index) [
        | err e ↦ not_usable e
        | ok answer ↦
            if verify_merkle_proof_bytes_for_tree ext.blake3 answer.chunk_hash chunk_index
              answer.merkle_path merkle_root chunk_count
            then usable answer.source
            else not_usable does_not_verify
      ];
    }

    unfoldable pub audit_chunks : ℕ → List ℕ → List ChunkAudit
    audit_chunks chunk_count snapshot = map (audit_chunk chunk_count) (
        filter_by
          (λ chunk_index.
            contains (assigned_archives ext.wire merkle_root snapshot chunk_index r) archive)
          (range_from 0 chunk_count))

    -- The audit, and the assignment height.
    unfoldable pub audit_file : Chain → FileAudit × ℕ
    audit_file chain = elim (chain.storage_get_file_info_v2 (root_text ext merkle_root)) [
      | err e ↦ (failed_file merkle_root (file_info_read e), 0)
      | ok none ↦ (not_registered_file merkle_root, 0)
      | ok (some info) ↦
          if is_abandoned info.lifecycle
          then (abandoned_file merkle_root, info.assignment_height)
          else elim (read_epoch chain merkle_root info.assignment_height) [
            | err e ↦ (failed_file merkle_root e, info.assignment_height)
            | ok epoch ↦ elim (read_snapshot chain epoch) [
              | err e ↦ (failed_file merkle_root e, info.assignment_height)
              | ok snapshot ↦ (
                audited merkle_root epoch (audit_chunks info.chunk_count snapshot) unchanged,
                info.assignment_height,
              )
            ]
          ]
    ]

  -- The second read of a file's epoch.
  unfoldable pub recheck_of : Chain → Bytes → ℕ → ℕ → EpochRecheck
  recheck_of later merkle_root epoch assignment_height =
      elim (read_epoch later merkle_root assignment_height) [
        | err e ↦ recheck_failed e
        | ok now ↦ if nat_beq now epoch then unchanged else moved now
      ]

  unfoldable pub recheck_file : Chain → FileAudit × ℕ → FileAudit
  recheck_file later (audited root epoch chunks recheck, height) =
      audited root epoch chunks (recheck_of later root epoch height)
  recheck_file later (file, height) = file

  -- The first loop, with the roots that were seen.
  unfoldable pub audit_roots :
      LocalStore → ℕ → ℕ → Chain → List Bytes → List Bytes → List (FileAudit × ℕ)
  audit_roots local r archive chain seen [] = []
  audit_roots local r archive chain seen (root ∷ inventory) =
      if contains seen root
      then audit_roots local r archive chain seen inventory
      else audit_file local r archive root chain
        ∷ audit_roots local r archive chain (root ∷ seen) inventory

  -- The files of the report.
  unfoldable pub audit : LocalStore → ℕ → ℕ → Chain → Chain → List Bytes → List FileAudit
  audit local r archive chain later inventory =
      map (recheck_file later) (audit_roots local r archive chain [] inventory)
