-- ===== src/Manifest.antt =====
-- crates/sum-store/src/serve.rs: the window of a chunk that a request reads, and the admission of a
-- pushed manifest. `decode_cbor` (ciborium) and `cid_from_blake3_hash` (the multihash encoding) are
-- parameters; the text of an error is the constructor of its branch.
pub mod HexRoot
pub mod Window
pub mod Admission
mod Examples
use storage_node_interface_p.Prelude.{
  ℕ, zero, suc, ◌+◌, ◌-◌, ◌*◌, ◌<◌, min, Bool, true, false, ◌&&◌, ◌||◌, not, Option, none, some,
  List, [], ◌∷◌, ◌++◌, length, ltb, leb, nat_beq, if◌then◌else◌, any_by, Result, ok, err, ◌>>=◌,
  ◌>>◌, refuse_if, ◌^◌,
}
use storage_node_interface_p.Prelude.Eq.{◌==◌, nat_eq, list_eq}
use storage_node_interface_p.Merkle.{Bytes, build, root}
use storage_node_interface_p.Text.{Text}

-- `Option::unwrap_or`
abbrev pub unwrap_or : Option ℕ → ℕ → ℕ
unwrap_or none d = d
unwrap_or (some a) d = a

-- `u64::saturating_add`
unfoldable pub saturating_add : ℕ → ℕ → ℕ
saturating_add a b = min (a + b) (2 ^ 64 - 1)

unfoldable pub resolve_chunk_window : ℕ → Option ℕ → Option ℕ → ℕ × ℕ
unfolding saturating_add
resolve_chunk_window total offset max_bytes =
    let start = min (unwrap_or offset 0) total in
    let len = unwrap_or max_bytes total in (start, min (saturating_add start len) total)

-- `char::to_digit(16)`: a digit's value.
unfoldable pub digit_value : ℕ → Option ℕ
digit_value c =
    if leb b'0' c && leb c b'9'
    then some (c - b'0')
    else if leb b'a' c && leb c b'f'
    then some (c - b'a' + 10)
    else if leb b'A' c && leb c b'F'
    then some (c - b'A' + 10)
    else none

-- `u8::from_str_radix(s, 16)` on two bytes: one leading `+` is taken before the digits. (A `-` is
-- not a digit of an unsigned number.)
unfoldable pub parse_pair : ℕ → ℕ → Option ℕ
unfolding digit_value
parse_pair a b = if nat_beq a b'+' then digit_value b else elim (digit_value a) [
  | none ↦ none
  | some hi ↦ elim (digit_value b) [ none ↦ none | some lo ↦ some (hi * 16 + lo) ]
]

unfoldable pub is_ascii_uppercase : ℕ → Bool
is_ascii_uppercase c = leb b'A' c && leb c b'Z'

-- `chunks(2)`, each parsed. The caller has checked that the length is 64.
unfoldable pub parse_pairs : Text → Option Bytes
parse_pairs [] = some []
parse_pairs (a ∷ []) = none
parse_pairs (a ∷ b ∷ rest) =
    let later = parse_pairs rest in
    elim (parse_pair a b) [
      | none ↦ none
      | some byte ↦ elim later [ none ↦ none | some bytes ↦ some (byte ∷ bytes) ]
    ]

unfoldable pub hex_to_32 : Text → Option Bytes
hex_to_32 hex =
    if not (nat_beq (length hex) 64)
    then none
    else if any_by is_ascii_uppercase hex
    then none
    else parse_pairs hex

pub record ChunkDescriptor : Type 0 where
  pub chunk_index : ℕ
  pub offset : ℕ
  pub size : ℕ
  pub blake3_hash : Bytes
  pub cid : Text
  pub plaintext_blake3_hash : Option Bytes

pub record DataManifest : Type 0 where
  pub file_name : Text
  pub file_hash : Bytes
  pub total_size_bytes : ℕ
  pub chunk_count : ℕ
  pub merkle_root : Bytes
  pub chunks : List ChunkDescriptor

pub data ManifestError : Type 0 where
  invalid_root_hex : ManifestError
  deserialization_failed : ManifestError
  merkle_root_mismatch : ManifestError
  chunk_count_mismatch : ManifestError
  -- the position
  chunks_out_of_order : ℕ → ManifestError
  cid_mismatch : ℕ → ManifestError
  root_recomputation_failed : ManifestError

module _ (blake3 : Bytes → Bytes) (cid_from_blake3_hash : Bytes → Text)
    (decode_cbor : Bytes → Option DataManifest) where
  -- The loop over the chunks, from position `i` on: the leaf hashes.
  unfoldable pub collect_leaves : ℕ → List ChunkDescriptor → Result ManifestError (List Bytes)
  collect_leaves i [] = ok []
  collect_leaves i (chunk ∷ rest) =
      let later = collect_leaves (i + 1) rest in
      if not (chunk.chunk_index == i)
      then err (chunks_out_of_order i)
      else if not (chunk.cid == cid_from_blake3_hash chunk.blake3_hash)
      then err (cid_mismatch i)
      else (later >>= λ leaves. ok (chunk.blake3_hash ∷ leaves))

  unfoldable pub validate_decoded : Bytes → DataManifest → Result ManifestError DataManifest
  validate_decoded expected_root manifest = do
    refuse_if (not (manifest.merkle_root == expected_root)) merkle_root_mismatch
    refuse_if (not (length manifest.chunks == manifest.chunk_count)) chunk_count_mismatch
    leaf_hashes ← collect_leaves 0 manifest.chunks
    refuse_if (not (root (build blake3 leaf_hashes) == manifest.merkle_root))
        root_recomputation_failed
    ok manifest

  unfoldable pub validate_manifest_push : Text → Bytes → Result ManifestError DataManifest
  validate_manifest_push root_hex payload = elim (hex_to_32 root_hex) [
    | none ↦ err invalid_root_hex
    | some expected_root ↦ elim (decode_cbor payload) [
      | none ↦ err deserialization_failed
      | some manifest ↦ validate_decoded expected_root manifest
    ]
  ]
