-- ===== src/Manifest/Admission.antt =====
-- Which manifests are admitted, and what that gives their chunks.
use storage_node_interface_p.Prelude.{
  ℕ, zero, suc, ◌+◌, ◌^◌, ◌<◌, ◌≡◌, ◌↔◌, refl, ap, sym, subst, ◌∙◌, true, Option, some, List, [],
  ◌∷◌, map, arith, length, get_elem?, ok, Result-cases, Option-cases, inl, inr, length-map,
}
use storage_node_interface_p.Prelude.Eq.{nat_eq, list_eq, list_beq_iff}
use storage_node_interface_p.Merkle.{Bytes, build, root, generate_proof}
use storage_node_interface_p.Text.{Text}
use storage_node_interface_p.Verify.{verify_merkle_proof_bytes_for_tree}
use storage_node_interface_p.Verify.Complete.{generate_proof-verifies}
use storage_node_interface_p.Manifest.{
  ChunkDescriptor, DataManifest, collect_leaves, validate_decoded, validate_manifest_push,
  hex_to_32,
}

abbrev pub leaves_of : DataManifest → List Bytes
leaves_of manifest = map (λ chunk. chunk.blake3_hash) manifest.chunks

-- The chunks number on from `i`, and each has the CID of its hash.
abbrev pub InOrder : (Bytes → Text) → ℕ → List ChunkDescriptor → Type 0
InOrder cid_from_blake3_hash i [] = Unit {0}
InOrder cid_from_blake3_hash i (chunk ∷ rest) =
    (chunk.chunk_index ≡ i)
    × (chunk.cid ≡ cid_from_blake3_hash chunk.blake3_hash)
    × InOrder cid_from_blake3_hash (i + 1) rest

-- A manifest whose parts agree with one another and with the root asked for.
pub record IsConsistent (blake3 : Bytes → Bytes) (cid_from_blake3_hash : Bytes → Text)
    (expected_root : Bytes) (manifest : DataManifest) : Type 0 where
  pub same_root : manifest.merkle_root ≡ expected_root
  pub counted : length manifest.chunks ≡ manifest.chunk_count
  pub in_order : InOrder cid_from_blake3_hash 0 manifest.chunks
  pub binds : root (build blake3 (leaves_of manifest)) ≡ manifest.merkle_root

module _ (blake3 : Bytes → Bytes) (cid_from_blake3_hash : Bytes → Text)
    (decode_cbor : Bytes → Option DataManifest) where
  collect_leaves-InOrder :
      (i : ℕ) (chunks : List ChunkDescriptor) (leaves : List Bytes)
      → collect_leaves blake3 cid_from_blake3_hash decode_cbor i chunks ≡ ok leaves
      → InOrder cid_from_blake3_hash i chunks × (leaves ≡ map (λ chunk. chunk.blake3_hash) chunks)
  unfolding collect_leaves
  collect_leaves-InOrder i [] leaves e = ground arith
  collect_leaves-InOrder i (chunk ∷ rest) leaves e =
      let later = collect_leaves blake3 cid_from_blake3_hash decode_cbor (i + 1) rest in
      elim (Result-cases later) [
        | inl (ls, el) ↦
            let (ordered, same) = collect_leaves-InOrder (i + 1) rest ls el in
            ground (
              arith,
              list_beq_iff chunk.cid (cid_from_blake3_hash chunk.blake3_hash),
              el,
              ordered,
              same,
            )
        | inr (x, el) ↦
            ground (arith, list_beq_iff chunk.cid (cid_from_blake3_hash chunk.blake3_hash), el)
      ]

  InOrder-collect_leaves :
      (i : ℕ) (chunks : List ChunkDescriptor)
      → InOrder cid_from_blake3_hash i chunks
      → collect_leaves blake3 cid_from_blake3_hash decode_cbor i chunks
        ≡ ok (map (λ chunk. chunk.blake3_hash) chunks)
  unfolding collect_leaves
  InOrder-collect_leaves i [] h = refl
  InOrder-collect_leaves i (chunk ∷ rest) h =
      let (_, _, ordered) = h in
      let later = InOrder-collect_leaves (i + 1) rest ordered in
      rw later (ground (arith, list_beq_iff chunk.cid (cid_from_blake3_hash chunk.blake3_hash)))

  -- A decoded manifest is admitted exactly when it is consistent, and is handed on unchanged.
  pub validate_decoded_iff :
      (expected_root : Bytes) (manifest admitted : DataManifest)
      → (validate_decoded blake3 cid_from_blake3_hash decode_cbor expected_root manifest
          ≡ ok admitted)
        ↔ ((admitted ≡ manifest) × IsConsistent blake3 cid_from_blake3_hash expected_root manifest)
  unfolding validate_decoded
  validate_decoded_iff expected_root manifest admitted = (
    λ e.
        elim (Result-cases
          (collect_leaves blake3 cid_from_blake3_hash decode_cbor 0 manifest.chunks)) [
            | inl (ls, el) ↦
                let (ordered, same) = collect_leaves-InOrder 0 manifest.chunks ls el in
                ground (
                  arith,
                  list_beq_iff manifest.merkle_root expected_root,
                  list_beq_iff (root (build blake3 ls)) manifest.merkle_root,
                  el,
                  ordered,
                  same,
                )
            | inr (x, el) ↦ ground (arith, list_beq_iff manifest.merkle_root expected_root, el)
          ],
    λ h.
        let (same, c) = h in
        let leaves = InOrder-collect_leaves 0 manifest.chunks c.in_order in
        let a = c.same_root in
        let b = c.counted in
        let d = c.binds in
        rw leaves (
          ground (
            arith,
            list_beq_iff manifest.merkle_root expected_root,
            list_beq_iff (root (build blake3 (leaves_of manifest))) manifest.merkle_root,
            same,
            a,
            b,
            d,
          )),
  )

  -- `validate_manifest_push` admits a manifest exactly when the payload decodes to it, the hex
  -- parses, the manifest's root is those bytes and the root of the tree of its chunk hashes, its
  -- chunk count is right, and its chunks are numbered in order with the CID of their hash.
  pub validate_manifest_push_iff :
      (root_hex : Text) (payload : Bytes) (admitted : DataManifest)
      → (validate_manifest_push blake3 cid_from_blake3_hash decode_cbor root_hex payload
          ≡ ok admitted)
        ↔ ((decode_cbor payload ≡ some admitted)
            × (expected_root : Bytes) × (hex_to_32 root_hex ≡ some expected_root)
            × IsConsistent blake3 cid_from_blake3_hash expected_root admitted)
  unfolding validate_manifest_push
  validate_manifest_push_iff root_hex payload admitted = (
    λ e. elim (Option-cases (hex_to_32 root_hex)) [
      | inl none_hex ↦ absurd (ground (arith, none_hex))
      | inr (expected_root, some_hex) ↦ elim (Option-cases (decode_cbor payload)) [
        | inl none_cbor ↦ absurd (ground (arith, some_hex, none_cbor))
        | inr (manifest, some_cbor) ↦
            let kept : validate_decoded blake3 cid_from_blake3_hash decode_cbor expected_root
                  manifest
                ≡ ok admitted =
              ground (arith, e, some_hex, some_cbor) in
            let (same, c) = (validate_decoded_iff expected_root manifest admitted).0 kept in
            (
              some_cbor ∙ ap some (sym same),
              expected_root,
              some_hex,
              subst (λ m. IsConsistent blake3 cid_from_blake3_hash expected_root m) (sym same) c,
            )
      ]
    ],
    λ h.
        let (decoded, expected_root, parsed, c) = h in
        rw (validate_manifest_push, parsed, decoded)
          ((validate_decoded_iff expected_root admitted admitted).1 (refl, c)),
  )

  InOrder-get_elem? :
      (j i : ℕ) (chunks : List ChunkDescriptor) {chunk : ChunkDescriptor}
      → InOrder cid_from_blake3_hash j chunks
      → get_elem? chunks i ≡ some chunk
      → chunk.chunk_index ≡ j + i
  InOrder-get_elem? j i [] h e = absurd (cc)
  InOrder-get_elem? j zero (c ∷ rest) h e = let (same, _, _) = h in ground (arith, same, e)
  InOrder-get_elem? j (suc i) (c ∷ rest) h e =
      let (_, _, later) = h in let at = InOrder-get_elem? (j + 1) i rest later e in omega arith

  get_elem?-leaves :
      (chunks : List ChunkDescriptor) (i : ℕ) {chunk : ChunkDescriptor}
      → get_elem? chunks i ≡ some chunk
      → get_elem? (map (λ c. c.blake3_hash) chunks) i ≡ some chunk.blake3_hash
  get_elem?-leaves [] i e = absurd (cc)
  get_elem?-leaves (c ∷ rest) zero e = ground (arith, e)
  get_elem?-leaves (c ∷ rest) (suc i) e = get_elem?-leaves rest i e

  -- When `validate_manifest_push` admits a manifest of fewer than 2^32 chunks, each of its chunks
  -- stands at the index it states and has a proof that the strict verifier accepts against the
  -- manifest's root and chunk count.
  pub admitted-verifies :
      (root_hex : Text) (payload : Bytes) (manifest : DataManifest) (i : ℕ)
      (chunk : ChunkDescriptor)
      → validate_manifest_push blake3 cid_from_blake3_hash decode_cbor root_hex payload
        ≡ ok manifest
      → manifest.chunk_count < 2 ^ 32
      → get_elem? manifest.chunks i ≡ some chunk
      → (chunk.chunk_index ≡ i)
        × (path : List Bytes) × (generate_proof (build blake3 (leaves_of manifest)) i ≡ some path)
        × (verify_merkle_proof_bytes_for_tree blake3 chunk.blake3_hash i path manifest.merkle_root
              manifest.chunk_count
            ≡ true)
  admitted-verifies root_hex payload manifest i chunk e small at =
      let (_, expected_root, _, c) = (validate_manifest_push_iff root_hex payload manifest).0 e in
      let count : length (leaves_of manifest) ≡ manifest.chunk_count =
        length-map _ manifest.chunks ∙ c.counted in
      let (path, made, accepted) =
        generate_proof-verifies blake3 (leaves_of manifest) i chunk.blake3_hash
          (omega (arith, count)) (get_elem?-leaves manifest.chunks i at) in
      let at_i = InOrder-get_elem? 0 i manifest.chunks c.in_order at in
      let numbered : chunk.chunk_index ≡ i = omega (arith, at_i) in
      let rooted =
        subst
          (λ r.
            verify_merkle_proof_bytes_for_tree blake3 chunk.blake3_hash i path r
              (length (leaves_of manifest))
            ≡ true)
          c.binds accepted in
      let shown =
        subst
          (λ n.
            verify_merkle_proof_bytes_for_tree blake3 chunk.blake3_hash i path manifest.merkle_root
              n
            ≡ true)
          count rooted in
      (numbered, path, made, shown)
