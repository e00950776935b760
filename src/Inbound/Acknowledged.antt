-- ===== src/Inbound/Acknowledged.antt =====
-- A chunk that is acknowledged is on record.
use storage_node_interface_p.Prelude.{
  ℕ, ◌≡◌, refl, ap, ◌∙◌, Bool, true, false, ◌&&◌, not, Option, none, some, List, ok, Result-cases,
  Option-cases, Bool-cases, inl, inr,
}
use storage_node_interface_p.Prelude.Eq.{nat_eq, list_eq, contains, ==_refl}
use storage_node_interface_p.Prelude.Assoc.{lookup, insert, lookup-insert}
use storage_node_interface_p.Text.{Text}
use storage_node_interface_p.Merkle.{Bytes}
use storage_node_interface_p.Audit.{PushedProof}
use storage_node_interface_p.PushValidator.{ValidatedPush}
use storage_node_interface_p.PushValidator.Ask.{External}
use storage_node_interface_p.PushValidator.Cached.{Lrus, Config, Caches}
use storage_node_interface_p.PushValidator.Said.{IsLrus}
use storage_node_interface_p.PushValidator.History.{Push, serve}
use storage_node_interface_p.Index.{
  Disk, record_private_chunk_cid, record_v2_held_index, record_v2_pushed_proof,
}
use storage_node_interface_p.Index.Table.{find}
use storage_node_interface_p.Index.Records.{record_v2_held_index-Filed}
use storage_node_interface_p.Inbound.{
  Refusal, Disks, Stores, held_for, held_or_default, with_index, insert_index, record_held,
  record_chunk, store_v2_pushed_chunk, record_stored, accept_chunk_validated, is_private, Arrival,
  accept_validated,
}
use storage_node_interface_p.Inbound.Accepts.{Filed-here}
use storage_node_interface_p.Inbound.Runs.{serve-leaf}

some-ne-none : {r : Refusal} → ◌≡◌ {A = Option Refusal} (some r) none → ⊥
some-ne-none e = cc

contains-insert_index_same : (i : ℕ) (held : List ℕ) → contains (insert_index i held) i ≡ true
contains-insert_index_same i held = elim (Bool-cases (contains held i)) [
  | inl there ↦ rw (there) there
  | inr absent ↦ rw (absent, ==_refl i) refl
]

-- The chunk is recorded under its CID, and is in the tracker.
abbrev pub IsOnRecord : Bytes → ℕ → Text → Stores → Type 0
IsOnRecord root i cid s =
    (find root i s.manifest_idx.v2_held ≡ some cid) × (contains (held_for root s) i ≡ true)

module _ (blake3 : Bytes → Bytes) (cid_of : Bytes → Text) where
  record_held-none :
      (disk : Disk) (root : Bytes) (i : ℕ) (cid : Text) (s : Stores)
      → (record_held disk root i cid s).1 ≡ none
      → IsOnRecord root i cid (record_held disk root i cid s).0
  unfolding record_held held_for
  record_held-none disk root i cid s =
      let out = record_v2_held_index disk root i cid s.manifest_idx in
      let now = insert_index i (held_for root s) in
      elim (Result-cases out.1) [
        | inr (why, w) ↦ rw (record_held, w) (λ e. absurd (some-ne-none e))
        | inl (u, w) ↦
            let read : lookup root (insert root now s.held) ≡ some now =
              lookup-insert root root now s.held ∙ rw (==_refl root) refl in
            rw (record_held, w)
              (λ e. (
                Filed-here blake3 cid_of root i cid s.manifest_idx out
                    (record_v2_held_index-Filed disk root i cid s.manifest_idx) w,
                ap (λ o. contains (held_or_default o) i) read
                    ∙ contains-insert_index_same i (held_for root s),
              ))
      ]

  record_chunk-none :
      (disks : Disks) (root : Bytes) (i : ℕ) (proof : PushedProof) (cid : Text) (s : Stores)
      → (record_chunk blake3 disks root i proof cid s).1 ≡ none
      → IsOnRecord root i cid (record_chunk blake3 disks root i proof cid s).0
  unfolding record_chunk
  record_chunk-none disks root i proof cid s =
      let out = record_v2_pushed_proof blake3 disks.proof root i proof s.manifest_idx in
      elim (Result-cases out.1) [
        | inr (why, w) ↦ rw (record_chunk, w) (λ e. absurd (some-ne-none e))
        | inl (u, w) ↦
            rw (record_chunk, w) (record_held-none disks.held root i cid (with_index s out.0))
      ]

  record_stored-none :
      (disks : Disks) (private : Bool) (root : Bytes) (i : ℕ) (proof : PushedProof) (cid : Text)
      (s : Stores)
      → (record_stored blake3 disks private root i proof cid s).1 ≡ none
      → IsOnRecord root i cid (record_stored blake3 disks private root i proof cid s).0
  unfolding record_stored
  record_stored-none disks false root i proof cid s = record_chunk-none disks root i proof cid s
  record_stored-none disks true root i proof cid s =
      let out = record_private_chunk_cid disks.mapping root cid s.manifest_idx in
      elim (Result-cases out.1) [
        | inr (why, w) ↦ rw (record_stored, w) (λ e. absurd (some-ne-none e))
        | inl (u, w) ↦
            rw (record_stored, w) (record_chunk-none disks root i proof cid (with_index s out.0))
      ]

  -- A chunk that is accepted may be, and is on record.
  accept_chunk_validated-none :
      (disks : Disks) (allow_private : Bool) (push : Push) (v : ValidatedPush) (s : Stores)
      → (accept_chunk_validated blake3 cid_of disks allow_private push v s).1 ≡ none
      → ((is_private v.visibility && not allow_private) ≡ false)
        × IsOnRecord push.merkle_root push.chunk_index
            (cid_of v.leaf_hash)
            (accept_chunk_validated blake3 cid_of disks allow_private push v s).0
  unfolding accept_chunk_validated
  accept_chunk_validated-none disks allow_private push v s =
      let cid = cid_of v.leaf_hash in
      let out = store_v2_pushed_chunk disks cid push.payload s in
      let private = is_private v.visibility in
      elim (Bool-cases (private && not allow_private)) [
        | inl refused ↦ rw (accept_chunk_validated, refused) (λ e. absurd (some-ne-none e))
        | inr allowed ↦ elim (Option-cases out.1) [
          | inr (why, w) ↦ rw (accept_chunk_validated, allowed, w) (λ e. absurd (some-ne-none e))
          | inl w ↦
              rw (accept_chunk_validated, allowed, w)
                (λ e. (
                  refl,
                  record_stored-none disks private push.merkle_root push.chunk_index
                      record { leaf = v.leaf_hash; path = push.merkle_path } cid out.0 e,
                ))
        ]
      ]

-- When a chunk that arrives is acknowledged, the validator passed it, it is not private unless
-- private chunks are accepted, it is recorded as held under the CID of its payload's hash, and it
-- is in the tracker.
pub accept_validated-none :
    (ext : External) (cid_of : Bytes → Text) (lrus : Lrus) (lawful : IsLrus lrus) (cfg : Config)
    (a : Arrival) (c : Caches lrus) (s : Stores)
    → (accept_validated ext cid_of lrus cfg a (c, s)).1 ≡ none
    → (v : ValidatedPush) × ((serve ext lrus cfg c a.push).1 ≡ ok v)
      × ((is_private v.visibility && not a.allow_private) ≡ false)
      × IsOnRecord a.push.merkle_root a.push.chunk_index
          (cid_of (ext.blake3 a.push.payload))
          (accept_validated ext cid_of lrus cfg a (c, s)).0.1
unfolding accept_validated
accept_validated-none ext cid_of lrus lawful cfg a c s =
    elim (Result-cases (serve ext lrus cfg c a.push).1) [
      | inr (why, e) ↦ rw (accept_validated, e) (λ h. absurd (some-ne-none h))
      | inl (v, e) ↦
          let leaf = serve-leaf ext cid_of lrus lawful cfg c a.push v e in
          rw (accept_validated, e)
            (λ h.
              let (allowed, on_record) =
                accept_chunk_validated-none ext.blake3 cid_of a.disks a.allow_private a.push v s
                  h in
              let (recorded, tracked) = on_record in
              (v, refl, allowed, (recorded ∙ ap (λ l. some (cid_of l)) leaf, tracked)))
    ]
