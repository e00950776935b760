-- ===== src/Verify/Complete.antt =====
-- The proofs that `generate_proof` makes are those that the verifiers accept.
use storage_node_interface_p.Prelude.{
  ℕ, zero, suc, ◌/◌, ◌^◌, ◌≤◌, ◌<◌, ◌≡◌, refl, sym, ap, ◌∙◌, get_elem?-lt, true, some, List, [],
  ◌∷◌, arith, length, get_elem?, ltb, Bool-cases, inl, inr,
}
use storage_node_interface_p.Prelude.Eq.{list_eq, nat_eq}
use storage_node_interface_p.Merkle.{
  Bytes, MerkleTree, next_level, build_loop, build, root, depth, sibling, proof_walk,
  generate_proof,
}
use storage_node_interface_p.Merkle.Levels.{parent, next_level-parent, length-next_level}
use storage_node_interface_p.Merkle.Shape.{
  build_loop-more, build_loop-done, build-levels, generate_proof-walk,
}
use storage_node_interface_p.Verify.{expected_proof_depth, verify_merkle_proof_bytes_for_tree}
use storage_node_interface_p.Verify.Climb.{climb, verify_iff}
use storage_node_interface_p.Verify.Depth.{expected_proof_depth-half, expected_proof_depth-one}

module _ (blake3 : Bytes → Bytes) where
  abbrev tree_over : ℕ → List Bytes → MerkleTree
  tree_over fuel cur = record { levels = cur ∷ build_loop blake3 fuel cur }

  proof_walk-step :
      (cur : List Bytes) (above : List Bytes) (rest : List (List Bytes)) (idx : ℕ) (s : Bytes)
      (path : List Bytes)
      → sibling cur idx ≡ some s
      → proof_walk (above ∷ rest) (idx / 2) ≡ some path
      → proof_walk (cur ∷ above ∷ rest) idx ≡ some (s ∷ path)
  unfolding proof_walk
  proof_walk-step cur above rest idx s path e1 e2 = ground arith

  -- The path climbs from the node at `idx` to the root, and has one step for each level above.
  walk-climb :
      (fuel : ℕ) (cur : List Bytes) (idx : ℕ) (x : Bytes)
      → length cur ≤ fuel
      → get_elem? cur idx ≡ some x
      → (path : List Bytes) × (proof_walk (tree_over fuel cur).levels idx ≡ some path)
        × (root (tree_over fuel cur) ≡ climb blake3 idx x path)
        × (length path ≡ length (build_loop blake3 fuel cur))
  unfolding proof_walk root climb
  walk-climb fuel [] idx x k e = absurd (cc)
  walk-climb fuel (a ∷ []) zero x k e =
      rw (build_loop-done blake3 fuel (a ∷ []) (omega arith)) ([], refl, cc, refl)
  walk-climb fuel (a ∷ []) (suc i) x k e = absurd (cc)
  walk-climb zero (a ∷ b ∷ r) idx x k e = absurd (omega arith)
  walk-climb (suc fuel) (a ∷ b ∷ r) idx x k e =
      let cur : List Bytes = a ∷ b ∷ r in
      let (s, e1, e2) = next_level-parent blake3 cur idx x e in
      let n = length-next_level blake3 cur in
      let (path, w, top, len) =
        walk-climb fuel (next_level blake3 cur) (idx / 2) (parent blake3 idx x s) (omega arith)
          e2 in
      rw (build_loop-more blake3 fuel cur (omega arith))
        (s ∷ path, proof_walk-step cur _ _ idx s path e1 w, top, ap suc len)

  length-build_loop :
      (fuel : ℕ) (cur : List Bytes)
      → 0 < length cur
      → length cur ≤ fuel
      → length cur ≤ 2 ^ 32
      → length (build_loop blake3 fuel cur) ≡ expected_proof_depth (length cur)
  length-build_loop zero cur h k b = absurd (omega arith)
  length-build_loop (suc fuel) cur h k b = elim (Bool-cases (ltb 1 (length cur))) [
    | inl more ↦
        let lt : 1 < length cur = ground arith in
        let n = length-next_level blake3 cur in
        rw (build_loop-more blake3 fuel cur lt, expected_proof_depth-half (length cur) lt b, ← n)
          (ap suc (
            length-build_loop fuel (next_level blake3 cur) (omega arith) (omega arith)
              (omega arith)))
    | inr done ↦
        let one : length cur ≡ 1 = ground arith in
        rw (build_loop-done blake3 (suc fuel) cur (omega arith), one) (sym expected_proof_depth-one)
  ]

  -- The tree of fewer than 2^32 leaves has the depth that the verifier computes from its leaf
  -- count.
  pub depth-expected :
      (leaves : List Bytes)
      → length leaves < 2 ^ 32
      → depth (build blake3 leaves) ≡ expected_proof_depth (length leaves)
  unfolding depth build expected_proof_depth
  depth-expected [] b = refl
  depth-expected (x ∷ xs) b = rw (build-levels blake3 (x ∷ xs) (omega arith)) (
      ground (
        arith,
        length-build_loop (suc (length xs)) (x ∷ xs) (omega arith) (omega arith) (omega arith),
      ))

  -- For every chunk hash of a list of fewer than 2^32, `generate_proof` on the tree of the list
  -- makes a path, and the strict verifier accepts it for that chunk's index against the tree's
  -- root and the length of the list.
  pub generate_proof-verifies :
      (leaves : List Bytes) (i : ℕ) (x : Bytes)
      → length leaves < 2 ^ 32
      → get_elem? leaves i ≡ some x
      → (path : List Bytes) × (generate_proof (build blake3 leaves) i ≡ some path)
        × (verify_merkle_proof_bytes_for_tree blake3 x i path
              (root (build blake3 leaves))
              (length leaves)
            ≡ true)
  generate_proof-verifies leaves i x b e =
      let n = length leaves in
      let lt : i < length leaves = get_elem?-lt leaves i e in
      let (path, w, top, len) = walk-climb n leaves i x (omega arith) e in
      let deep = length-build_loop n leaves (omega arith) (omega arith) (omega arith) in
      rw (build-levels blake3 leaves (omega arith)) (
        path,
        generate_proof-walk (tree_over n leaves) i ∙ w,
        (verify_iff blake3 x i path (root (tree_over n leaves)) n (omega arith)).1
            (lt, len ∙ deep, sym top),
      )
