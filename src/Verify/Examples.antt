-- ===== src/Verify/Examples.antt =====
-- The verifiers on a file of three chunks.
use storage_node_interface_p.Prelude.{
  ◌≡◌, ◌<◌, ◌↔◌, ◌⊎◌, refl, true, false, some, List, [], ◌∷◌, ◌++◌, length, arith,
}
use storage_node_interface_p.Merkle.{
  Bytes, build, build_loop, next_level, hash_pair, root, generate_proof,
}
use storage_node_interface_p.Merkle.Sample.{digest, leaf_one, leaf_two, leaf_three, three_leaves}
use storage_node_interface_p.Verify.{
  combine, fold_path, verify_merkle_proof, leading_zeros, expected_proof_depth,
  verify_merkle_proof_bytes_for_tree,
}
use storage_node_interface_p.Verify.Climb.{climb, verify_iff}
use storage_node_interface_p.Verify.Complete.{generate_proof-verifies}
use storage_node_interface_p.Verify.Collision.{Collides, verify_sound}

-- The path of the third chunk: its own copy, then the parent of the other two.
abbrev path_three : List Bytes
path_three = leaf_three ∷ digest (leaf_one ++ leaf_two) ∷ []

abbrev top : Bytes
top = root (build digest three_leaves)

verify_three : verify_merkle_proof_bytes_for_tree digest leaf_three 2 path_three top 3 ≡ true
unfolding verify_merkle_proof_bytes_for_tree verify_merkle_proof fold_path combine
    expected_proof_depth leading_zeros root build build_loop next_level hash_pair
verify_three = refl

-- The same path at an index past the end.
verify_past_end : verify_merkle_proof_bytes_for_tree digest leaf_three 3 path_three top 3 ≡ false
unfolding verify_merkle_proof_bytes_for_tree
verify_past_end = refl

generate_proof-verifies_example :
    (path : List Bytes) × (generate_proof (build digest three_leaves) 2 ≡ some path)
    × (verify_merkle_proof_bytes_for_tree digest leaf_three 2 path
          (root (build digest three_leaves))
          (length three_leaves)
        ≡ true)
generate_proof-verifies_example =
    generate_proof-verifies digest three_leaves 2 leaf_three (omega arith) refl

verify_iff_example :
    (verify_merkle_proof_bytes_for_tree digest leaf_three 2 path_three top 3 ≡ true) ↔ (
      (2 < 3)
      × (length path_three ≡ expected_proof_depth 3)
      × (climb digest 2 leaf_three path_three ≡ top))
verify_iff_example = verify_iff digest leaf_three 2 path_three top 3 (omega arith)

verify_sound_example :
    (made : List Bytes) × (generate_proof (build digest three_leaves) 2 ≡ some made)
    × ((leaf_three ≡ leaf_three) ⊎ Collides digest 2 leaf_three path_three leaf_three made)
verify_sound_example =
    verify_sound digest three_leaves 2 leaf_three leaf_three path_three (omega arith) (λ a. refl)
      (refl, (refl, (refl, tt))) (refl, (refl, tt)) refl refl verify_three
