-- ===== src/Audit/Answers.antt =====
-- An answer is built from a chunk that is held.
use storage_node_interface_p.Prelude.{
  ℕ, ◌≡◌, ◌⊎◌, refl, sym, subst, none, some, List, map, get_elem?, Result, ok, Option-cases,
  Bool-cases, inl, inr, arith,
}
use storage_node_interface_p.Prelude.Eq.{◌==◌, nat_eq, list_eq, list_beq_iff}
use storage_node_interface_p.Text.{Text}
use storage_node_interface_p.Merkle.{Bytes, build, generate_proof}
use storage_node_interface_p.Manifest.{ChunkDescriptor, DataManifest}
use storage_node_interface_p.PushValidator.Ask.{External}
use storage_node_interface_p.Audit.{
  PushedProof, LocalStore, PorAnswer, AnswerError, answer_from_pushed_proof, answer_from_manifest,
  build_answer, pushed_proof, public_manifest,
}

module _ (ext : External) (local : LocalStore) where
  -- The path of an answer is the one that the tree of the file's manifest has for the chunk, when
  -- there is a manifest, and else the one that was recorded.
  abbrev pub HasPath : Bytes → ℕ → List Bytes → Type 0
  HasPath merkle_root c path =
      ((manifest : DataManifest) × (local.get_by_merkle_root merkle_root ≡ some manifest)
        × (generate_proof
              (build ext.blake3 (map (λ (d : ChunkDescriptor). d.blake3_hash) manifest.chunks)) c
            ≡ some path))
      ⊎ ((proof : PushedProof) × (local.get_by_merkle_root merkle_root ≡ none)
          × (local.v2_pushed_proof merkle_root c ≡ some proof)
          × (proof.path ≡ path))

  -- The answer's hash is that of a chunk in the store, and its path is the one for the chunk.
  abbrev pub IsHeld : Bytes → ℕ → PorAnswer → Type 0
  IsHeld merkle_root c answer =
      (cid : Text) × (bytes : Bytes) × (local.get cid ≡ some bytes)
      × (answer.chunk_hash ≡ ext.blake3 bytes)
      × HasPath merkle_root c answer.merkle_path

  ok_eq : {a b : PorAnswer} → ◌≡◌ {A = Result AnswerError PorAnswer} (ok a) (ok b) → a ≡ b
  ok_eq e = cc

  -- An answer that is built carries the hash of a chunk that is in the store, and a path that the
  -- tree of the file's manifest has for the chunk index, when there is a manifest, and else the
  -- path recorded for the chunk.
  pub build_answer-IsHeld :
      (merkle_root : Bytes) (c : ℕ) (answer : PorAnswer)
      → build_answer ext local merkle_root c ≡ ok answer
      → IsHeld merkle_root c answer
  unfolding build_answer answer_from_manifest answer_from_pushed_proof
  build_answer-IsHeld merkle_root c answer h =
      elim (Option-cases (local.get_by_merkle_root merkle_root)) [
        | inr (manifest, m) ↦ elim (Option-cases (get_elem? manifest.chunks c)) [
          | inl nothing ↦ absurd (ground (arith, h, m, nothing))
          | inr (chunk, k) ↦ elim (Option-cases (local.get chunk.cid)) [
            | inl lost ↦ absurd (ground (arith, h, m, k, lost))
            | inr (bytes, g) ↦
                elim (Option-cases (
                  generate_proof
                    (build ext.blake3
                      (map (λ (d : ChunkDescriptor). d.blake3_hash) manifest.chunks))
                    c)) [
                      | inl nothing ↦ absurd (ground (arith, h, m, k, g, nothing))
                      | inr (proof, p) ↦
                          let made : PorAnswer = record {
                            chunk_hash = ext.blake3 bytes;
                            merkle_path = proof;
                            source = public_manifest;
                          } in
                          let same : made ≡ answer = ok_eq (ground (arith, h, m, k, g, p)) in
                          subst (IsHeld merkle_root c) same
                            (chunk.cid, bytes, g, refl, inl (manifest, m, p))
                    ]
          ]
        ]
        | inl m ↦ elim (Option-cases (local.v2_pushed_proof merkle_root c)) [
          | inl nothing ↦ absurd (ground (arith, h, m, nothing))
          | inr (proof, p) ↦ elim (Option-cases (local.v2_held_cid merkle_root c)) [
            | inl nothing ↦ absurd (ground (arith, h, m, p, nothing))
            | inr (cid, k) ↦ elim (Option-cases (local.get cid)) [
              | inl lost ↦ absurd (ground (arith, h, m, p, k, lost))
              | inr (bytes, g) ↦ elim (Bool-cases (ext.blake3 bytes == proof.leaf)) [
                | inr differs ↦ absurd (ground (arith, h, m, p, k, g, differs))
                | inl leaf ↦
                    let made : PorAnswer = record {
                      chunk_hash = proof.leaf;
                      merkle_path = proof.path;
                      source = pushed_proof;
                    } in
                    let same : made ≡ answer = ok_eq (ground (arith, h, m, p, k, g, leaf)) in
                    subst (IsHeld merkle_root c) same (
                      cid,
                      bytes,
                      g,
                      sym ((list_beq_iff (ext.blake3 bytes) proof.leaf).0 leaf),
                      inr (proof, m, p, refl),
                    )
              ]
            ]
          ]
        ]
      ]
