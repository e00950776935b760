-- ===== src/PushValidator.antt =====
-- crates/sum-node/src/push_validator.rs: whether a pushed chunk is stored. What the validator asks of
-- the chain is in PushValidator/Ask, its caches are in PushValidator/Cached.
-- During one push the chain gives one answer to each question, and the clock stands at `now`.
-- Pushes come one after the other. The text of an error is left out where only its reason counts.
pub mod Ask
pub mod Cached
pub mod Said
pub mod Gates
pub mod Rows
pub mod Sound
pub mod History
pub mod Sample
pub mod OneEntry
mod Examples
use storage_node_interface_p.Prelude.{
  ℕ, Bool, true, false, ◌&&◌, ◌||◌, not, List, leb, if◌then◌else◌, Result, ok, err,
}
use storage_node_interface_p.Prelude.Eq.{◌==◌, nat_eq}
use storage_node_interface_p.Merkle.{Bytes}
use storage_node_interface_p.Verify.{verify_merkle_proof_bytes_for_tree}
use storage_node_interface_p.PushValidator.Ask.{
  External, Chain, PushReject, abandoned, bad_chain_shape, out_of_range, bad_proof, not_in_snapshot,
  not_assigned, StorageFileInfoV2, is_pending, is_active, is_abandoned,
}
use storage_node_interface_p.PushValidator.Cached.{
  Config, Lrus, Caches, fetch_file_info, assignment_epoch, check_assigned,
}

-- A successful validation.
pub record ValidatedPush : Type 0 where
  pub leaf_hash : Bytes
  pub visibility : ℕ

-- The rejections that a newer epoch may lift.
unfoldable pub is_refusal : PushReject → Bool
is_refusal (not_in_snapshot height) = true
is_refusal (not_assigned chunk_index) = true
is_refusal _ = false

module _ (ext : External) (lrus : Lrus) (cfg : Config) (chain : Chain) (now : ℕ) where
  -- The arms of the `match` on the first check.
  unfoldable pub recheck :
      Bytes
      → StorageFileInfoV2
      → ℕ
      → ℕ
      → Bool
      → Result PushReject (Unit {0})
      → Caches lrus
      → Caches lrus × Result PushReject (Unit {0})
  recheck merkle_root info chunk_index epoch read_now (ok _) c = (c, ok tt)
  recheck merkle_root info chunk_index epoch read_now (err refused) c =
      if is_refusal refused && not read_now
      then (let (d, again) =
            assignment_epoch ext lrus chain now merkle_root info cfg.epoch_recheck_min c in
          elim again [
            | err e ↦ (d, err e)
            | ok (fresh, _) ↦
                if fresh == epoch
                then (d, err refused)
                else check_assigned ext lrus cfg chain merkle_root fresh chunk_index d
          ])
      else (c, err refused)

  -- The epoch, the check against it, and the second check.
  unfoldable pub assigned_here :
      Bytes → StorageFileInfoV2 → ℕ → Caches lrus → Caches lrus × Result PushReject (Unit {0})
  assigned_here merkle_root info chunk_index c =
      let (d, known) = assignment_epoch ext lrus chain now merkle_root info cfg.epoch_ttl c in
      elim known [
        | err e ↦ (d, err e)
        | ok (epoch, read_now) ↦
            let (f, first) = check_assigned ext lrus cfg chain merkle_root epoch chunk_index d in
            recheck merkle_root info chunk_index epoch read_now first f
      ]

  unfoldable pub validate_push :
      Bytes → ℕ → Bytes → List Bytes → Caches lrus → Caches lrus × Result PushReject ValidatedPush
  validate_push merkle_root chunk_index payload merkle_path c =
      let leaf_hash = ext.blake3 payload in
      let (d, found) = fetch_file_info ext lrus chain merkle_root c in
      elim found [
        | err e ↦ (d, err e)
        | ok info ↦
            if is_abandoned info.lifecycle
            then (d, err abandoned)
            else if not (is_pending info.lifecycle || is_active info.lifecycle)
            then (d, err bad_chain_shape)
            else if leb info.chunk_count chunk_index
            then (d, err (out_of_range chunk_index info.chunk_count))
            else let (f, here) = assigned_here merkle_root info chunk_index d in
              elim here [
                | err e ↦ (f, err e)
                | ok _ ↦
                    if not (
                      verify_merkle_proof_bytes_for_tree ext.blake3 leaf_hash chunk_index
                        merkle_path merkle_root info.chunk_count)
                    then (f, err bad_proof)
                    else (f, ok (record { leaf_hash = leaf_hash; visibility = info.visibility }))
              ]
      ]
