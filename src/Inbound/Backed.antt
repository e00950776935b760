-- ===== src/Inbound/Backed.antt =====
-- What backs a chunk that the node records as held.
use storage_node_interface_p.Prelude.{
  ℕ, ◌≡◌, ◌⊎◌, refl, sym, ap, subst, ◌∙◌, true, Option, none, some, Result, ok, inl, inr,
}
use storage_node_interface_p.Prelude.Eq.{nat_eq, list_eq, contains}
use storage_node_interface_p.Prelude.Assoc.{lookup}
use storage_node_interface_p.Text.{Text}
use storage_node_interface_p.Merkle.{Bytes}
use storage_node_interface_p.Audit.{PushedProof}
use storage_node_interface_p.Index.{ManifestIndex, StoreError, pushed_proof_verifies}
use storage_node_interface_p.Index.Table.{find, find-file_at, find-file_cases, find-file_kept}
use storage_node_interface_p.Index.Records.{Leaves, Proved}
use storage_node_interface_p.Inbound.{Stores, held_for, held_or_default, with_index}

none-ne-some : {A : Type 0} {a : A} → ◌≡◌ {A = Option A} none (some a) → ⊥
none-ne-some e = cc

module _ (blake3 : Bytes → Bytes) (cid_of : Bytes → Text) where
  -- The chunk at a CID is in the store and protected.
  abbrev pub IsStored : Stores → Text → Type 0
  IsStored s cid =
      (contains s.manifest_idx.gc_protected cid ≡ true)
      × (bytes : Bytes) × (lookup cid s.local ≡ some bytes)
      × (cid_of (blake3 bytes) ≡ cid)

  -- A proof of a leaf is recorded for the chunk.
  abbrev pub HasProof : Stores → Bytes → ℕ → Text → Type 0
  HasProof s root i cid =
      (proof : PushedProof) × (find root i s.manifest_idx.v2_proofs ≡ some proof)
      × (cid_of proof.leaf ≡ cid)

  pub record IsBacked (s : Stores) : Type 0 where
    pub leads :
        (root : Bytes) (i : ℕ) (proof : PushedProof)
        → find root i s.manifest_idx.v2_proofs ≡ some proof
        → pushed_proof_verifies blake3 root i proof ≡ true
    pub held :
        (root : Bytes) (i : ℕ) (cid : Text)
        → find root i s.manifest_idx.v2_held ≡ some cid
        → IsStored s cid × HasProof s root i cid
    pub tracked :
        (root : Bytes) (i : ℕ)
        → contains (held_for root s) i ≡ true
        → (cid : Text) × (find root i s.manifest_idx.v2_held ≡ some cid)

  -- A change to the stores that files nothing as held.
  pub record Extends (s t : Stores) : Type 0 where
    pub held_same : t.manifest_idx.v2_held ≡ s.manifest_idx.v2_held
    pub tracker_same : t.held ≡ s.held
    pub proofs_kept :
        (root : Bytes) (i : ℕ) (p : PushedProof)
        → find root i s.manifest_idx.v2_proofs ≡ some p
        → find root i t.manifest_idx.v2_proofs ≡ some p
    pub proofs_lead :
        (root : Bytes) (i : ℕ) (p : PushedProof)
        → find root i t.manifest_idx.v2_proofs ≡ some p
        → (find root i s.manifest_idx.v2_proofs ≡ some p)
          ⊎ (pushed_proof_verifies blake3 root i p ≡ true)
    pub stored_kept : (cid : Text) → IsStored s cid → IsStored t cid

  pub Extends-IsBacked : (s t : Stores) → Extends s t → IsBacked s → IsBacked t
  unfolding held_for
  Extends-IsBacked s t e b = record {
    leads = λ root i p f. elim (e.proofs_lead root i p f) [
      | inl old ↦ b.leads root i p old
      | inr new ↦ new
    ];
    held = λ root i cid f.
        let (stored, proved) = b.held root i cid (ap (find root i) (sym e.held_same) ∙ f) in
        let (p, at, leaf) = proved in
        (e.stored_kept cid stored, (p, e.proofs_kept root i p at, leaf));
    tracked = λ root i c.
        let same : held_for root s ≡ held_for root t =
          ap (λ h. held_or_default (lookup root h)) (sym e.tracker_same) in
        let (cid, f) = b.tracked root i (ap (λ l. contains l i) same ∙ c) in
        (cid, ap (find root i) e.held_same ∙ f);
  }

  -- A call on the index that leaves the tables of chunks.
  pub Leaves-Extends :
      (s : Stores) (idx : ManifestIndex) → Leaves s.manifest_idx idx → Extends s (with_index s idx)
  Leaves-Extends s idx (held, proofs, protected) = record {
    held_same = held;
    tracker_same = refl;
    proofs_kept = λ root i p f. ap (find root i) proofs ∙ f;
    proofs_lead = λ root i p f. inl (ap (find root i) (sym proofs) ∙ f);
    stored_kept = λ cid h.
        let (is_protected, bytes, at, names) = h in
        (ap (λ l. contains l cid) protected ∙ is_protected, bytes, at, names);
  }

  pub Proved-Extends :
      (s : Stores) (root : Bytes) (i : ℕ) (proof : PushedProof)
      (out : ManifestIndex × Result StoreError (Unit {0}))
      → Proved blake3 root i proof s.manifest_idx out
      → Extends s (with_index s out.0)
        × (out.1 ≡ ok tt → HasProof (with_index s out.0) root i (cid_of proof.leaf))
  Proved-Extends s root i proof out (held, protected, inl (same, there)) = (
    Leaves-Extends s out.0 (held, same, protected),
    λ o. let (old, f, leaf) = there o in (old, ap (find root i) same ∙ f, ap cid_of leaf),
  )
  Proved-Extends s root i proof out (held, protected, inr (filed, fresh, leads)) = (
    record {
      held_same = held;
      tracker_same = refl;
      proofs_kept = λ at j p f.
          elim (find-file_kept root at i j proof p s.manifest_idx.v2_proofs f) [
            | inl kept ↦ ap (find at j) filed ∙ kept
            | inr (a, b, new) ↦
                let none_here : find at j s.manifest_idx.v2_proofs ≡ none =
                  subst (λ r. find r j s.manifest_idx.v2_proofs ≡ none) a
                    (subst (λ k. find root k s.manifest_idx.v2_proofs ≡ none) b fresh) in
                absurd (none-ne-some (sym none_here ∙ f))
          ];
      proofs_lead = λ at j p f.
          elim (find-file_cases root at i j proof p s.manifest_idx.v2_proofs
            (ap (find at j) (sym filed) ∙ f)) [
              | inl old ↦ inl old
              | inr (a, b, c) ↦ inr (
                  subst (λ r. pushed_proof_verifies blake3 r j p ≡ true) a
                    (subst (λ k. pushed_proof_verifies blake3 root k p ≡ true) b
                      (subst (λ q. pushed_proof_verifies blake3 root i q ≡ true) c leads)))
            ];
      stored_kept = λ cid h.
          let (is_protected, bytes, at, names) = h in
          (ap (λ l. contains l cid) protected ∙ is_protected, bytes, at, names);
    },
    λ o. (proof, ap (find root i) filed ∙ find-file_at root i proof s.manifest_idx.v2_proofs, refl),
  )
