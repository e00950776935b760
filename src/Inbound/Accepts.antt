-- ===== src/Inbound/Accepts.antt =====
-- A chunk that arrives leaves the stores backed.
use storage_node_interface_p.Prelude.{
  ℕ, ◌≡◌, ◌⊎◌, refl, sym, ap, subst, ◌∙◌, Bool, true, false, ◌&&◌, not, Option, none, some, List,
  Result, ok, Result-cases, Option-cases, Bool-cases, inl, inr, nat_beq_iff,
}
use storage_node_interface_p.Prelude.Eq.{◌==◌, nat_eq, list_eq, list_beq_iff, contains, ==_refl}
use storage_node_interface_p.Prelude.Assoc.{Assoc, lookup, insert, lookup-insert}
use storage_node_interface_p.Text.{Text}
use storage_node_interface_p.Merkle.{Bytes}
use storage_node_interface_p.Audit.{PushedProof}
use storage_node_interface_p.PushValidator.{ValidatedPush}
use storage_node_interface_p.PushValidator.History.{Push}
use storage_node_interface_p.Index.{
  Disk, ManifestIndex, StoreError, record_private_chunk_cid, record_v2_held_chunk,
  record_v2_held_index, record_v2_pushed_proof,
}
use storage_node_interface_p.Index.Table.{find, find-file_at, find-file_cases, find-file_kept}
use storage_node_interface_p.Index.Records.{
  Filed, Protects, record_private_chunk_cid-Leaves, record_v2_pushed_proof-Proved,
  record_v2_held_index-Filed, record_v2_held_chunk-Protects,
}
use storage_node_interface_p.Inbound.{
  Disks, Stores, held_for, held_or_default, with_index, insert_index, record_held, record_chunk,
  store_v2_pushed_chunk, record_stored, accept_chunk_validated, is_private,
}
use storage_node_interface_p.Inbound.Backed.{
  IsStored, HasProof, IsBacked, Extends, Extends-IsBacked, Leaves-Extends, Proved-Extends,
}

contains-insert_index :
    (i j : ℕ) (held : List ℕ)
    → contains (insert_index i held) j ≡ true
    → (i ≡ j) ⊎ (contains held j ≡ true)
contains-insert_index i j held h = elim (Bool-cases (contains held i)) [
  | inl there ↦ inr (sym (rw (there) refl) ∙ h)
  | inr absent ↦ elim (Bool-cases (i == j)) [
    | inl same ↦ inl ((nat_beq_iff i j).0 same)
    | inr differs ↦ inr (sym (rw (absent, differs) refl) ∙ h)
  ]
]

some-ne-none : {A : Type 0} {a : A} → ◌≡◌ {A = Option A} (some a) none → ⊥
some-ne-none e = cc

module _ (blake3 : Bytes → Bytes) (cid_of : Bytes → Text) where
  Protects-Extends :
      (cid : Text) (s t : Stores) (out : ManifestIndex × Result StoreError (Unit {0}))
      → Protects cid s.manifest_idx out
      → t.manifest_idx ≡ out.0
      → t.held ≡ s.held
      → ((c : Text) (bytes : Bytes)
          → lookup c s.local ≡ some bytes
          → cid_of (blake3 bytes) ≡ c
          → (kept : Bytes) × (lookup c t.local ≡ some kept) × (cid_of (blake3 kept) ≡ c))
      → Extends blake3 cid_of s t
  Protects-Extends cid s t out (held, proofs, kept, here) same tracker files = record {
    held_same = ap (λ m. m.v2_held) same ∙ held;
    tracker_same = tracker;
    proofs_kept =
        λ root i p f. ap (λ m. find root i m.v2_proofs) same ∙ ap (find root i) proofs ∙ f;
    proofs_lead = λ root i p f.
        inl (ap (find root i) (sym proofs) ∙ ap (λ m. find root i m.v2_proofs) (sym same) ∙ f);
    stored_kept = λ c h.
        let (is_protected, bytes, at, names) = h in
        let (b, found, named) = files c bytes at names in
        (ap (λ m. contains m.gc_protected c) same ∙ kept c is_protected, b, found, named);
  }

  store_v2_pushed_chunk-Extends :
      (disks : Disks) (cid : Text) (bytes : Bytes) (s : Stores)
      → cid_of (blake3 bytes) ≡ cid
      → Extends blake3 cid_of s (store_v2_pushed_chunk disks cid bytes s).0
        × ((store_v2_pushed_chunk disks cid bytes s).1 ≡ none
            → IsStored blake3 cid_of (store_v2_pushed_chunk disks cid bytes s).0 cid)
  unfolding store_v2_pushed_chunk
  store_v2_pushed_chunk-Extends disks cid bytes s names =
      let out = record_v2_held_chunk disks.exemption cid s.manifest_idx in
      let done = record_v2_held_chunk-Protects disks.exemption cid s.manifest_idx in
      let (_, _, _, here) = done in
      let indexed =
        Protects-Extends cid s (with_index s out.0) out done refl refl
          (λ c b at named. (b, at, named)) in
      elim (Result-cases out.1) [
        | inr (why, w) ↦ rw (store_v2_pushed_chunk, w) (indexed, λ e. absurd (some-ne-none e))
        | inl (u, w) ↦ elim (Bool-cases disks.put) [
          | inr f ↦ rw (store_v2_pushed_chunk, w, f) (indexed, λ e. absurd (some-ne-none e))
          | inl t ↦
              let after : Stores = record {
                manifest_idx = out.0;
                local = insert cid bytes s.local;
                held = s.held;
              } in
              let law = λ (c : Text). lookup-insert cid c bytes s.local in
              rw (store_v2_pushed_chunk, w, t)
                (
                  Protects-Extends cid s after out done refl refl (λ c b at named.
                      elim (Bool-cases (cid == c)) [
                        | inl same ↦
                            (bytes, law c ∙ rw (same) refl, names ∙ (list_beq_iff cid c).0 same)
                        | inr differs ↦ (b, law c ∙ rw (differs) at, named)
                      ]),
                  λ e. (here w, bytes, law cid ∙ rw (==_refl cid) refl, names),
                )
        ]
      ]

  -- The held index after a call: what it has is old or the chunk's, and what it had it has.
  Filed-kept :
      (root at : Bytes) (i j : ℕ) (cid c : Text) (idx : ManifestIndex)
      (out : ManifestIndex × Result StoreError (Unit {0}))
      → Filed root i cid idx out
      → find at j idx.v2_held ≡ some c
      → (d : Text) × (find at j out.0.v2_held ≡ some d)
  Filed-kept root at i j cid c idx out (_, _, inl (same, there)) f = (c, ap (find at j) same ∙ f)
  Filed-kept root at i j cid c idx out (_, _, inr filed) f =
      elim (find-file_kept root at i j cid c idx.v2_held f) [
        | inl kept ↦ (c, ap (find at j) filed ∙ kept)
        | inr (a, b, new) ↦ (cid, ap (find at j) filed ∙ new)
      ]

  Filed-new :
      (root at : Bytes) (i j : ℕ) (cid c : Text) (idx : ManifestIndex)
      (out : ManifestIndex × Result StoreError (Unit {0}))
      → Filed root i cid idx out
      → find at j out.0.v2_held ≡ some c
      → (find at j idx.v2_held ≡ some c) ⊎ ((root ≡ at) × (i ≡ j) × (cid ≡ c))
  Filed-new root at i j cid c idx out (_, _, inl (same, there)) f =
      inl (ap (find at j) (sym same) ∙ f)
  Filed-new root at i j cid c idx out (_, _, inr filed) f =
      find-file_cases root at i j cid c idx.v2_held (ap (find at j) (sym filed) ∙ f)

  pub Filed-here :
      (root : Bytes) (i : ℕ) (cid : Text) (idx : ManifestIndex)
      (out : ManifestIndex × Result StoreError (Unit {0}))
      → Filed root i cid idx out
      → out.1 ≡ ok tt
      → find root i out.0.v2_held ≡ some cid
  Filed-here root i cid idx out (_, _, inl (same, there)) o = ap (find root i) same ∙ there o
  Filed-here root i cid idx out (_, _, inr filed) o =
      ap (find root i) filed ∙ find-file_at root i cid idx.v2_held

  -- Filing a chunk that is stored and has its proof, with a tracker that is backed afterwards.
  Filed-IsBacked :
      (root : Bytes) (i : ℕ) (cid : Text) (s : Stores) (tracker : Assoc Bytes (List ℕ))
      (out : ManifestIndex × Result StoreError (Unit {0}))
      → Filed root i cid s.manifest_idx out
      → IsBacked blake3 cid_of s
      → IsStored blake3 cid_of s cid
      → HasProof blake3 cid_of s root i cid
      → ((at : Bytes) (j : ℕ)
          → contains (held_or_default (lookup at tracker)) j ≡ true
          → (c : Text) × (find at j out.0.v2_held ≡ some c))
      → IsBacked blake3 cid_of record { manifest_idx = out.0; local = s.local; held = tracker }
  unfolding held_for
  Filed-IsBacked root i cid s tracker out filed b stored proved tracked =
      let (proofs, protected, _) = filed in
      record {
        leads = λ at j p f. b.leads at j p (ap (find at j) (sym proofs) ∙ f);
        held = λ at j c f.
            let backed : IsStored blake3 cid_of s c × HasProof blake3 cid_of s at j c =
              elim (Filed-new root at i j cid c s.manifest_idx out filed f) [
                | inl old ↦ b.held at j c old
                | inr (a, k, n) ↦ (
                  subst (IsStored blake3 cid_of s) n stored,
                  subst (λ r. HasProof blake3 cid_of s r j c) a
                      (subst (λ m. HasProof blake3 cid_of s root m c) k
                        (subst (HasProof blake3 cid_of s root i) n proved)),
                )
              ] in
            let (here, shown) = backed in
            let (is_protected, bytes, where_at, names) = here in
            let (p, there, leaf) = shown in
            (
              (ap (λ l. contains l c) protected ∙ is_protected, bytes, where_at, names),
              (p, ap (find at j) proofs ∙ there, leaf),
            );
        tracked = tracked;
      }

  record_held-IsBacked :
      (disk : Disk) (root : Bytes) (i : ℕ) (cid : Text) (s : Stores)
      → IsBacked blake3 cid_of s
      → IsStored blake3 cid_of s cid
      → HasProof blake3 cid_of s root i cid
      → IsBacked blake3 cid_of (record_held disk root i cid s).0
  unfolding record_held held_for
  record_held-IsBacked disk root i cid s b stored proved =
      let out = record_v2_held_index disk root i cid s.manifest_idx in
      let filed = record_v2_held_index-Filed disk root i cid s.manifest_idx in
      let old = λ (at : Bytes) (j : ℕ) (h : contains (held_for at s) j ≡ true).
        let (c, f) = b.tracked at j h in Filed-kept root at i j cid c s.manifest_idx out filed f in
      elim (Result-cases out.1) [
        | inr (why, w) ↦
            rw (record_held, w) (Filed-IsBacked root i cid s s.held out filed b stored proved old)
        | inl (u, w) ↦
            let now = insert_index i (held_for root s) in
            rw (record_held, w)
              (Filed-IsBacked root i cid s (insert root now s.held) out filed b stored proved
                (λ at j h.
                  let law = lookup-insert root at now s.held in
                  elim (Bool-cases (root == at)) [
                    | inr differs ↦
                        let read : lookup at (insert root now s.held) ≡ lookup at s.held =
                          law ∙ rw (differs) refl in
                        old at j (ap (λ o. contains (held_or_default o) j) (sym read) ∙ h)
                    | inl same ↦
                        let here : root ≡ at = (list_beq_iff root at).0 same in
                        let read : lookup at (insert root now s.held) ≡ some now =
                          law ∙ rw (same) refl in
                        let among : contains now j ≡ true =
                          ap (λ o. contains (held_or_default o) j) (sym read) ∙ h in
                        elim (contains-insert_index i j (held_for root s) among) [
                          | inr was ↦
                              old at j (subst (λ r. contains (held_for r s) j ≡ true) here was)
                          | inl it ↦ (
                            cid,
                            subst (λ r. find r j out.0.v2_held ≡ some cid) here
                                (subst (λ k. find root k out.0.v2_held ≡ some cid) it
                                  (Filed-here root i cid s.manifest_idx out filed w)),
                          )
                        ]
                  ]))
      ]

  record_chunk-IsBacked :
      (disks : Disks) (root : Bytes) (i : ℕ) (proof : PushedProof) (cid : Text) (s : Stores)
      → cid_of proof.leaf ≡ cid
      → IsBacked blake3 cid_of s
      → IsStored blake3 cid_of s cid
      → IsBacked blake3 cid_of (record_chunk blake3 disks root i proof cid s).0
  unfolding record_chunk
  record_chunk-IsBacked disks root i proof cid s names b stored =
      let out = record_v2_pushed_proof blake3 disks.proof root i proof s.manifest_idx in
      let (grown, shown) =
        Proved-Extends blake3 cid_of s root i proof out
          (record_v2_pushed_proof-Proved blake3 disks.proof root i proof s.manifest_idx) in
      let t = with_index s out.0 in
      let backed = Extends-IsBacked blake3 cid_of s t grown b in
      elim (Result-cases out.1) [
        | inr (why, w) ↦ rw (record_chunk, w) backed
        | inl (u, w) ↦
            rw (record_chunk, w)
              (record_held-IsBacked disks.held root i cid t backed (grown.stored_kept cid stored)
                (subst (HasProof blake3 cid_of t root i) names (shown w)))
      ]

  record_stored-IsBacked :
      (disks : Disks) (private : Bool) (root : Bytes) (i : ℕ) (proof : PushedProof) (cid : Text)
      (s : Stores)
      → cid_of proof.leaf ≡ cid
      → IsBacked blake3 cid_of s
      → IsStored blake3 cid_of s cid
      → IsBacked blake3 cid_of (record_stored blake3 disks private root i proof cid s).0
  unfolding record_stored
  record_stored-IsBacked disks false root i proof cid s names b stored =
      record_chunk-IsBacked disks root i proof cid s names b stored
  record_stored-IsBacked disks true root i proof cid s names b stored =
      let out = record_private_chunk_cid disks.mapping root cid s.manifest_idx in
      let t = with_index s out.0 in
      let grown =
        Leaves-Extends blake3 cid_of s out.0
          (record_private_chunk_cid-Leaves disks.mapping root cid s.manifest_idx) in
      let backed = Extends-IsBacked blake3 cid_of s t grown b in
      elim (Result-cases out.1) [
        | inr (why, w) ↦ rw (record_stored, w) backed
        | inl (u, w) ↦
            rw (record_stored, w)
              (record_chunk-IsBacked disks root i proof cid t names backed
                (grown.stored_kept cid stored))
      ]

  pub accept_chunk_validated-IsBacked :
      (disks : Disks) (allow_private : Bool) (push : Push) (v : ValidatedPush) (s : Stores)
      → v.leaf_hash ≡ blake3 push.payload
      → IsBacked blake3 cid_of s
      → IsBacked blake3 cid_of (accept_chunk_validated blake3 cid_of disks allow_private push v s).0
  unfolding accept_chunk_validated
  accept_chunk_validated-IsBacked disks allow_private push v s leaf b =
      let cid = cid_of v.leaf_hash in
      let out = store_v2_pushed_chunk disks cid push.payload s in
      let (grown, stored) =
        store_v2_pushed_chunk-Extends disks cid push.payload s (ap cid_of (sym leaf)) in
      let backed = Extends-IsBacked blake3 cid_of s out.0 grown b in
      let private = is_private v.visibility in
      elim (Bool-cases (private && not allow_private)) [
        | inl refused ↦ rw (accept_chunk_validated, refused) b
        | inr allowed ↦ elim (Option-cases out.1) [
          | inr (why, w) ↦ rw (accept_chunk_validated, allowed, w) backed
          | inl w ↦
              rw (accept_chunk_validated, allowed, w)
                (record_stored-IsBacked disks private push.merkle_root push.chunk_index
                  record { leaf = v.leaf_hash; path = push.merkle_path } cid out.0 refl backed
                  (stored w))
        ]
      ]
