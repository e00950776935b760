-- ===== src/Verify/Climb.antt =====
-- The verifier's loop shifts the index by the level; climbing halves the index at each step.
use native.Mathlib.Nat.{pow-suc, mod-eq_of_lt, div-div-eq-div-mul}
use storage_node_interface_p.Prelude.{
  ℕ, ◌+◌, ◌/◌, ◌^◌, ◌≤◌, ◌<◌, ◌≡◌, refl, ap, sym, ◌∙◌, List, [], ◌∷◌, arith, length, true, ◌↔◌,
}
use storage_node_interface_p.Merkle.{Bytes}
use storage_node_interface_p.Merkle.Levels.{parent}
use storage_node_interface_p.Verify.{
  combine, fold_path, verify_merkle_proof, expected_proof_depth, verify_merkle_proof_bytes_for_tree,
}
use storage_node_interface_p.Verify.Depth.{expected_proof_depth-le, expected_proof_depth-one}
use storage_node_interface_p.Prelude.Eq.{list_eq, nat_eq, list_beq_iff}

module _ (blake3 : Bytes → Bytes) where
  unfoldable pub climb : ℕ → Bytes → List Bytes → Bytes
  climb idx x [] = x
  climb idx x (s ∷ path) = climb (idx / 2) (parent blake3 idx x s) path

  shift-half : (i level : ℕ) → i / 2 ^ (level + 1) ≡ i / 2 ^ level / 2
  shift-half i level =
      ap (λ (k : ℕ). i / 2 ^ k) (omega arith)
      ∙ ap (λ (k : ℕ). i / k) (pow-suc 2 level)
      ∙ sym (div-div-eq-div-mul i (2 ^ level) 2)

  combine-parent :
      (i level : ℕ) (x s : Bytes)
      → level < 32
      → combine blake3 i level x s ≡ parent blake3 (i / 2 ^ level) x s
  unfolding combine parent
  combine-parent i level x s h = rw (mod-eq_of_lt h)

  pub fold_path-climb :
      (i level : ℕ) (x : Bytes) (path : List Bytes)
      → level + length path ≤ 32
      → fold_path blake3 i level x path ≡ climb (i / 2 ^ level) x path
  unfolding fold_path climb
  fold_path-climb i level x [] h = refl
  fold_path-climb i level x (s ∷ path) h =
      rw (combine-parent i level x s (omega arith), ← shift-half i level)
        (fold_path-climb i (level + 1) (parent blake3 (i / 2 ^ level) x s) path (omega arith))

  fold_path-root :
      (i : ℕ) (x : Bytes) (path : List Bytes)
      → length path ≤ 32
      → fold_path blake3 i 0 x path ≡ climb i x path
  fold_path-root i x path h =
      fold_path-climb i 0 x path (omega arith)
      ∙ ap (λ (k : ℕ). climb k x path) (let whole : i / 1 ≡ i = omega arith in whole)

  climb-one : (i : ℕ) (x : Bytes) (path : List Bytes) → length path ≡ 0 → climb i x path ≡ x
  unfolding climb
  climb-one i x [] h = refl
  climb-one i x (s ∷ path) h = absurd (omega arith)

  -- For a chunk count up to 2^32 the strict verifier accepts exactly when the index is below the
  -- count, the path has the expected length, and climbing the path, halving the index at each
  -- step, leads from the chunk hash to the root.
  pub verify_iff :
      (x : Bytes) (i : ℕ) (path : List Bytes) (root : Bytes) (total : ℕ)
      → total ≤ 2 ^ 32
      → (verify_merkle_proof_bytes_for_tree blake3 x i path root total ≡ true)
        ↔ ((i < total) × (length path ≡ expected_proof_depth total) × (climb i x path ≡ root))
  unfolding verify_merkle_proof_bytes_for_tree verify_merkle_proof
  verify_iff x i path root total b = (
    λ h. ground (
      arith,
      list_beq_iff x root,
      list_beq_iff (fold_path blake3 i 0 x path) root,
      fold_path-root i x path,
      climb-one i x path,
      expected_proof_depth-le total,
      expected_proof_depth-one,
    ),
    λ h. ground (
      arith,
      list_beq_iff x root,
      list_beq_iff (fold_path blake3 i 0 x path) root,
      fold_path-root i x path,
      climb-one i x path,
      expected_proof_depth-le total,
      expected_proof_depth-one,
    ),
  )
