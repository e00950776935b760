-- ===== src/Verify.antt =====
-- crates/sum-store/src/verify.rs: the Merkle verifiers. A hash and its 32 wire bytes are one value
-- here, so `verify_merkle_proof_bytes` is `verify_merkle_proof`. A `u32` shift takes its count
-- modulo 32, as a release build does.
pub mod Depth
pub mod Climb
pub mod Complete
pub mod Collision
mod Examples
use storage_node_interface_p.Prelude.{
  ℕ, zero, suc, ◌+◌, ◌-◌, ◌/◌, ◌%◌, ◌^◌, Bool, true, false, List, [], ◌∷◌, ◌++◌, length, ltb, leb,
  nat_beq, if◌then◌else◌, not,
}
use storage_node_interface_p.Prelude.Eq.{◌==◌, nat_eq, list_eq}
use storage_node_interface_p.Merkle.{Bytes}

module _ (blake3 : Bytes → Bytes) where
  -- One round of the `for` loop: the bit of the index at `level` says on which side the sibling is.
  unfoldable pub combine : ℕ → ℕ → Bytes → Bytes → Bytes
  combine chunk_index level current s =
      if nat_beq (chunk_index / 2 ^ (level % 32) % 2) 0
      then blake3 (current ++ s)
      else blake3 (s ++ current)

  -- The loop from `level` on.
  unfoldable pub fold_path : ℕ → ℕ → Bytes → List Bytes → Bytes
  fold_path chunk_index level current [] = current
  fold_path chunk_index level current (s ∷ path) =
      fold_path chunk_index (level + 1) (combine chunk_index level current s) path

  unfoldable pub verify_merkle_proof : Bytes → ℕ → List Bytes → Bytes → Bool
  verify_merkle_proof chunk_hash chunk_index merkle_path expected_root =
      fold_path chunk_index 0 chunk_hash merkle_path == expected_root

-- `u32::leading_zeros`, over `bits` bits.
unfoldable pub leading_zeros : ℕ → ℕ → ℕ
leading_zeros zero n = 0
leading_zeros (suc bits) n =
    let more = 1 + leading_zeros bits n in if ltb n (2 ^ bits) then more else 0

unfoldable pub expected_proof_depth : ℕ → ℕ
expected_proof_depth total_leaves =
    if leb total_leaves 1 then 0 else 32 - leading_zeros 32 (total_leaves - 1)

unfoldable pub verify_merkle_proof_bytes_for_tree :
    (blake3 : Bytes → Bytes) → Bytes → ℕ → List Bytes → Bytes → ℕ → Bool
verify_merkle_proof_bytes_for_tree blake3 chunk_hash chunk_index merkle_path expected_root total =
    if nat_beq total 0
    then false
    else if leb total chunk_index
    then false
    else if not (nat_beq (length merkle_path) (expected_proof_depth total))
    then false
    else if nat_beq total 1
    then chunk_hash == expected_root
    else verify_merkle_proof blake3 chunk_hash chunk_index merkle_path expected_root
