-- ===== src/Manifest/Examples.antt =====
-- A manifest of one chunk, admitted.
use storage_node_interface_p.Prelude.{
  ℕ, ◌≡◌, ◌≢◌, ◌≤◌, ◌<◌, ◌+◌, ◌↔◌, min, refl, true, Option, none, some, List, [], ◌∷◌, ok, All,
  arith, replicate,
}
use storage_node_interface_p.Merkle.{Bytes, build, build_loop, root, generate_proof}
use storage_node_interface_p.Merkle.Sample.{digest, leaf_one}
use storage_node_interface_p.Text.{text, hex_digit, hex_root}
use storage_node_interface_p.Verify.{verify_merkle_proof_bytes_for_tree}
use storage_node_interface_p.Manifest.{
  unwrap_or, resolve_chunk_window, digit_value, parse_pair, parse_pairs, is_ascii_uppercase,
  hex_to_32, ChunkDescriptor, DataManifest, collect_leaves, validate_decoded,
  validate_manifest_push,
}
use storage_node_interface_p.Manifest.Window.{resolve_chunk_window-exact}
use storage_node_interface_p.Manifest.HexRoot.{hex_to_32-hex_root, hex_to_32_plus}
use storage_node_interface_p.Manifest.Admission.{
  leaves_of, IsConsistent, validate_manifest_push_iff, admitted-verifies,
}

abbrev only_chunk : ChunkDescriptor
only_chunk = record {
  chunk_index = 0;
  offset = 0;
  size = 1;
  blake3_hash = leaf_one;
  cid = hex_root leaf_one;
  plaintext_blake3_hash = none;
}

abbrev one_chunk : DataManifest
one_chunk = record {
  file_name = text "one";
  file_hash = leaf_one;
  total_size_bytes = 1;
  chunk_count = 1;
  merkle_root = leaf_one;
  chunks = only_chunk ∷ [];
}

abbrev decode : Bytes → Option DataManifest
decode payload = some one_chunk

admits_one_chunk :
    validate_manifest_push digest hex_root decode (hex_root leaf_one) (1 ∷ []) ≡ ok one_chunk
unfolding validate_manifest_push hex_to_32 parse_pairs parse_pair digit_value is_ascii_uppercase
    hex_root hex_digit validate_decoded collect_leaves build build_loop root
admits_one_chunk = refl

validate_manifest_push_iff_example :
    (validate_manifest_push digest hex_root decode (hex_root leaf_one) (1 ∷ []) ≡ ok one_chunk) ↔ (
      (decode (1 ∷ []) ≡ some one_chunk)
      × (expected_root : Bytes) × (hex_to_32 (hex_root leaf_one) ≡ some expected_root)
      × IsConsistent digest hex_root expected_root one_chunk)
validate_manifest_push_iff_example =
    validate_manifest_push_iff digest hex_root decode (hex_root leaf_one) (1 ∷ []) one_chunk

admitted-verifies_example :
    (only_chunk.chunk_index ≡ 0)
    × (path : List Bytes) × (generate_proof (build digest (leaves_of one_chunk)) 0 ≡ some path)
    × (verify_merkle_proof_bytes_for_tree digest only_chunk.blake3_hash 0 path one_chunk.merkle_root
          one_chunk.chunk_count
        ≡ true)
admitted-verifies_example =
    admitted-verifies digest hex_root decode (hex_root leaf_one) (1 ∷ []) one_chunk 0 only_chunk
      admits_one_chunk (omega arith) refl

resolve_chunk_window-exact_example :
    ((resolve_chunk_window 100 (some 90) (some 50)).0 ≡ min (unwrap_or (some 90) 0) 100)
    × ((resolve_chunk_window 100 (some 90) (some 50)).1
        ≡ min (min (unwrap_or (some 90) 0) 100 + unwrap_or (some 50) 100) 100)
    × ((resolve_chunk_window 100 (some 90) (some 50)).0
        ≤ (resolve_chunk_window 100 (some 90) (some 50)).1)
    × ((resolve_chunk_window 100 (some 90) (some 50)).1 ≤ 100)
resolve_chunk_window-exact_example =
    resolve_chunk_window-exact 100 (some 90) (some 50) (omega arith)

sixteens_small : All (λ (b : ℕ). b < 256) (replicate 31 16)
sixteens_small = ground arith

hex_to_32-hex_root_example : hex_to_32 (hex_root (5 ∷ replicate 31 16)) ≡ some (5 ∷ replicate 31 16)
hex_to_32-hex_root_example =
    hex_to_32-hex_root (5 ∷ replicate 31 16) refl (omega arith, sixteens_small)

hex_to_32_plus_example :
    (hex_to_32 (b'+' ∷ hex_digit 5 ∷ hex_root (replicate 31 16)) ≡ some (5 ∷ replicate 31 16))
    × (b'+' ∷ hex_digit 5 ∷ hex_root (replicate 31 16) ≢ hex_root (5 ∷ replicate 31 16))
hex_to_32_plus_example = hex_to_32_plus 5 (replicate 31 16) (omega arith) refl sixteens_small
