-- ===== src/Index/Records.antt =====
-- What the calls that record a pushed chunk leave in the index.
use storage_node_interface_p.Prelude.{
  ℕ, ◌≡◌, ◌⊎◌, refl, ap, true, none, some, ◌++◌, Result, ok, err, Result-cases, Option-cases,
  Bool-cases, inl, inr, arith,
}
use storage_node_interface_p.Prelude.Eq.{◌==◌, nat_eq, list_eq, list_beq_iff, contains, ==_refl}
use storage_node_interface_p.Prelude.Assoc.{lookup}
use storage_node_interface_p.Text.{Text, text, hex_root}
use storage_node_interface_p.Merkle.{Bytes}
use storage_node_interface_p.Audit.{PushedProof}
use storage_node_interface_p.Index.{
  Disk, ManifestIndex, StoreError, append_sidecar_line, append_gc_protected_line,
  pushed_proof_verifies, record_private_chunk_cid, record_v2_held_chunk, record_v2_held_index,
  record_v2_pushed_proof,
}
use storage_node_interface_p.Index.Table.{find, file}

abbrev Outcome : Type 0
Outcome = ManifestIndex × Result StoreError (Unit {0})

-- A call that changes no table of chunks and no protection.
abbrev pub Leaves : ManifestIndex → ManifestIndex → Type 0
Leaves idx after =
    (after.v2_held ≡ idx.v2_held)
    × (after.v2_proofs ≡ idx.v2_proofs)
    × (after.gc_protected ≡ idx.gc_protected)

err-ne-ok : {e : StoreError} → ◌≡◌ {A = Result StoreError (Unit {0})} (err e) (ok tt) → ⊥
err-ne-ok e = cc

pub record_private_chunk_cid-Leaves :
    (disk : Disk) (root : Bytes) (cid : Text) (idx : ManifestIndex)
    → Leaves idx (record_private_chunk_cid disk root cid idx).0
unfolding record_private_chunk_cid
record_private_chunk_cid-Leaves disk root cid idx =
    elim (Option-cases (lookup cid idx.private_cid_to_root)) [
      | inr (existing, e) ↦ rw (record_private_chunk_cid, e) (refl, refl, refl)
      | inl e ↦
          let wrote =
            append_sidecar_line disk idx.read_only (hex_root root ++ text ".private_chunks")
              idx.durable_sidecars in
          elim (Result-cases wrote.1) [
            | inl (u, w) ↦ rw (record_private_chunk_cid, e, w) (refl, refl, refl)
            | inr (why, w) ↦ rw (record_private_chunk_cid, e, w) (refl, refl, refl)
          ]
    ]

-- Either the proof is filed, and leads to the root, or the proofs are as before, and a proof with the
-- same leaf is there when the call succeeds.
abbrev pub Proved : (Bytes → Bytes) → Bytes → ℕ → PushedProof → ManifestIndex → Outcome → Type 0
Proved blake3 root i proof idx after =
    (after.0.v2_held ≡ idx.v2_held)
    × (after.0.gc_protected ≡ idx.gc_protected)
    × (((after.0.v2_proofs ≡ idx.v2_proofs)
          × (after.1 ≡ ok tt
              → (old : PushedProof) × (find root i idx.v2_proofs ≡ some old)
                × (old.leaf ≡ proof.leaf)))
        ⊎ ((after.0.v2_proofs ≡ file root i proof idx.v2_proofs)
            × (find root i idx.v2_proofs ≡ none)
            × (pushed_proof_verifies blake3 root i proof ≡ true)))

pub record_v2_pushed_proof-Proved :
    (blake3 : Bytes → Bytes) (disk : Disk) (root : Bytes) (i : ℕ) (proof : PushedProof)
    (idx : ManifestIndex)
    → Proved blake3 root i proof idx (record_v2_pushed_proof blake3 disk root i proof idx)
unfolding record_v2_pushed_proof
record_v2_pushed_proof-Proved blake3 disk root i proof idx =
    elim (Option-cases (find root i idx.v2_proofs)) [
      | inr (old, e) ↦ elim (Bool-cases (old.leaf == proof.leaf)) [
        | inl same ↦
            rw (record_v2_pushed_proof, e)
              (refl, refl, inl (refl, λ _. (old, refl, (list_beq_iff old.leaf proof.leaf).0 same)))
        | inr differs ↦
            rw (record_v2_pushed_proof, e, differs)
              (refl, refl, inl (refl, λ o. absurd (err-ne-ok o)))
      ]
      | inl e ↦ elim (Bool-cases (pushed_proof_verifies blake3 root i proof)) [
        | inr astray ↦
            rw (record_v2_pushed_proof, e, astray)
              (refl, refl, inl (refl, λ o. absurd (err-ne-ok o)))
        | inl leads ↦
            let wrote =
              append_sidecar_line disk idx.read_only (hex_root root ++ text ".v2_proofs")
                idx.durable_sidecars in
            elim (Result-cases wrote.1) [
              | inl (u, w) ↦
                  rw (record_v2_pushed_proof, e, leads, w) (refl, refl, inr (refl, refl, refl))
              | inr (why, w) ↦
                  rw (record_v2_pushed_proof, e, leads, w)
                    (refl, refl, inl (refl, λ o. absurd (err-ne-ok o)))
            ]
      ]
    ]

-- Either the CID is filed, or the records are as before, and have it when the call succeeds.
abbrev pub Filed : Bytes → ℕ → Text → ManifestIndex → Outcome → Type 0
Filed root i cid idx after =
    (after.0.v2_proofs ≡ idx.v2_proofs)
    × (after.0.gc_protected ≡ idx.gc_protected)
    × (((after.0.v2_held ≡ idx.v2_held) × (after.1 ≡ ok tt → find root i idx.v2_held ≡ some cid))
        ⊎ (after.0.v2_held ≡ file root i cid idx.v2_held))

pub record_v2_held_index-Filed :
    (disk : Disk) (root : Bytes) (i : ℕ) (cid : Text) (idx : ManifestIndex)
    → Filed root i cid idx (record_v2_held_index disk root i cid idx)
unfolding record_v2_held_index
record_v2_held_index-Filed disk root i cid idx = elim (Option-cases (find root i idx.v2_held)) [
  | inr (old, e) ↦ elim (Bool-cases (old == cid)) [
    | inl same ↦
        let it : old ≡ cid = (list_beq_iff old cid).0 same in
        rw (record_v2_held_index, e) (refl, refl, inl (refl, λ _. ap some it))
    | inr differs ↦
        rw (record_v2_held_index, e, differs) (refl, refl, inl (refl, λ o. absurd (err-ne-ok o)))
  ]
  | inl e ↦
      let wrote =
        append_sidecar_line disk idx.read_only (hex_root root ++ text ".v2_held")
          idx.durable_sidecars in
      elim (Result-cases wrote.1) [
        | inl (u, w) ↦ rw (record_v2_held_index, e, w) (refl, refl, inr refl)
        | inr (why, w) ↦
            rw (record_v2_held_index, e, w) (refl, refl, inl (refl, λ o. absurd (err-ne-ok o)))
      ]
]

-- What was protected still is, and the CID is when the call succeeds.
abbrev pub Protects : Text → ManifestIndex → Outcome → Type 0
Protects cid idx after =
    (after.0.v2_held ≡ idx.v2_held)
    × (after.0.v2_proofs ≡ idx.v2_proofs)
    × ((c : Text) → contains idx.gc_protected c ≡ true → contains after.0.gc_protected c ≡ true)
    × (after.1 ≡ ok tt → contains after.0.gc_protected cid ≡ true)

pub record_v2_held_chunk-Protects :
    (disk : Disk) (cid : Text) (idx : ManifestIndex)
    → Protects cid idx (record_v2_held_chunk disk cid idx)
unfolding record_v2_held_chunk
record_v2_held_chunk-Protects disk cid idx = elim (Bool-cases (contains idx.gc_protected cid)) [
  | inl there ↦ rw (record_v2_held_chunk, there) (refl, refl, λ c h. h, λ o. there)
  | inr absent ↦ elim (Option-cases idx.gc_protection_intact) [
    | inl e ↦ rw (record_v2_held_chunk, absent, e) (refl, refl, λ c h. h, λ o. absurd (err-ne-ok o))
    | inr (intact, e) ↦ elim (Bool-cases intact) [
      | inr f ↦
          rw (record_v2_held_chunk, absent, e, f) (refl, refl, λ c h. h, λ o. absurd (err-ne-ok o))
      | inl t ↦ elim (Result-cases (append_gc_protected_line disk idx.read_only)) [
        | inr (why, w) ↦
            rw (record_v2_held_chunk, absent, e, t, w)
              (refl, refl, λ c h. h, λ o. absurd (err-ne-ok o))
        | inl (u, w) ↦
            rw (record_v2_held_chunk, absent, e, t, w)
              (refl, refl, λ c h. ground (arith, h), λ o. ground (arith, ==_refl cid))
      ]
    ]
  ]
]
