-- ===== src/Inbound.antt =====
-- crates/sum-node/src/inbound_v2.rs: what a node does with a chunk that is pushed to it, or that it
-- pulled from another archive. `cid_from_blake3_hash` (the multihash encoding) is a parameter.
pub mod Backed
pub mod Accepts
pub mod Runs
pub mod Acknowledged
mod Examples
use storage_node_interface_p.Prelude.{
  ℕ, Bool, true, false, ◌&&◌, ◌||◌, not, Option, none, some, List, [], ◌∷◌, nat_beq, if◌then◌else◌,
  Result, ok, err,
}
use storage_node_interface_p.Prelude.Eq.{nat_eq, list_eq, contains}
use storage_node_interface_p.Prelude.Assoc.{Assoc, lookup, insert}
use storage_node_interface_p.Text.{Text}
use storage_node_interface_p.Merkle.{Bytes}
use storage_node_interface_p.PushValidator.{ValidatedPush}
use storage_node_interface_p.PushValidator.Ask.{External, PushReject}
use storage_node_interface_p.PushValidator.Cached.{Lrus, Config, Caches}
use storage_node_interface_p.PushValidator.History.{Push, serve}
use storage_node_interface_p.Audit.{PushedProof}
use storage_node_interface_p.Index.{
  Disk, ManifestIndex, StoreError, record_private_chunk_cid, record_v2_held_chunk,
  record_v2_held_index, record_v2_pushed_proof,
}

-- Why a chunk is not acknowledged.
pub data Refusal : Type 0 where
  rejected : PushReject → Refusal
  not_authorized : Refusal
  gc_exemption_failed : StoreError → Refusal
  not_stored : Refusal
  mapping_failed : StoreError → Refusal
  proof_failed : StoreError → Refusal
  held_index_failed : StoreError → Refusal

-- How the disk answers the writes of one chunk.
pub record Disks : Type 0 where
  pub exemption : Disk
  -- whether the chunk's file is written
  pub put : Bool
  pub mapping : Disk
  pub proof : Disk
  pub held : Disk

pub record Stores : Type 0 where
  pub manifest_idx : ManifestIndex
  pub local : Assoc Text Bytes
  -- the tracker of the chunks held
  pub held : Assoc Bytes (List ℕ)

abbrev pub with_index : Stores → ManifestIndex → Stores
with_index s idx = record { manifest_idx = idx; local = s.local; held = s.held }

-- `BTreeSet::insert`, up to order.
abbrev pub insert_index : ℕ → List ℕ → List ℕ
insert_index i held = if contains held i then held else i ∷ held

abbrev pub held_or_default : Option (List ℕ) → List ℕ
held_or_default none = []
held_or_default (some held) = held

unfoldable pub held_for : Bytes → Stores → List ℕ
held_for merkle_root s = held_or_default (lookup merkle_root s.held)

-- `VisibilityV2::is_private`
unfoldable pub is_private : ℕ → Bool
is_private visibility = nat_beq visibility 1

unfoldable pub record_held : Disk → Bytes → ℕ → Text → Stores → Stores × Option Refusal
unfolding held_for
record_held disk merkle_root chunk_index cid s =
    let (idx, recorded) = record_v2_held_index disk merkle_root chunk_index cid s.manifest_idx in
    elim recorded [
      | err e ↦ (with_index s idx, some (held_index_failed e))
      | ok u ↦ (
        record {
          manifest_idx = idx;
          local = s.local;
          held = insert merkle_root (insert_index chunk_index (held_for merkle_root s)) s.held;
        },
        none,
      )
    ]

-- The proof, then the held index.
unfoldable pub record_chunk :
    (Bytes → Bytes) → Disks → Bytes → ℕ → PushedProof → Text → Stores → Stores × Option Refusal
record_chunk blake3 disks merkle_root chunk_index proof cid s =
    let (idx, recorded) =
      record_v2_pushed_proof blake3 disks.proof merkle_root chunk_index proof s.manifest_idx in
    elim recorded [
      | err e ↦ (with_index s idx, some (proof_failed e))
      | ok u ↦ record_held disks.held merkle_root chunk_index cid (with_index s idx)
    ]

-- The exemption from garbage collection, then the chunk.
unfoldable pub store_v2_pushed_chunk : Disks → Text → Bytes → Stores → Stores × Option Refusal
store_v2_pushed_chunk disks cid data_bytes s =
    let (idx, recorded) = record_v2_held_chunk disks.exemption cid s.manifest_idx in
    elim recorded [
      | err e ↦ (with_index s idx, some (gc_exemption_failed e))
      | ok u ↦
          if disks.put
          then (
            record { manifest_idx = idx; local = insert cid data_bytes s.local; held = s.held },
            none,
          )
          else (with_index s idx, some not_stored)
    ]

-- For a private file, the mapping of the CID to the root first.
unfoldable pub record_stored :
    (Bytes → Bytes)
    → Disks
    → Bool
    → Bytes
    → ℕ
    → PushedProof
    → Text
    → Stores
    → Stores × Option Refusal
record_stored blake3 disks private merkle_root chunk_index proof cid s =
    if private
    then (let (idx, mapped) =
          record_private_chunk_cid disks.mapping merkle_root cid s.manifest_idx in
        elim mapped [
          | err e ↦ (with_index s idx, some (mapping_failed e))
          | ok u ↦ record_chunk blake3 disks merkle_root chunk_index proof cid (with_index s idx)
        ])
    else record_chunk blake3 disks merkle_root chunk_index proof cid s

-- A chunk that passed the validation.
unfoldable pub accept_chunk_validated :
    (Bytes → Bytes)
    → (Bytes → Text)
    → Disks
    → Bool
    → Push
    → ValidatedPush
    → Stores
    → Stores × Option Refusal
unfolding is_private
accept_chunk_validated blake3 cid_from_blake3_hash disks allow_private push v s =
    let cid = cid_from_blake3_hash v.leaf_hash in
    let private = is_private v.visibility in
    let proof : PushedProof = record { leaf = v.leaf_hash; path = push.merkle_path } in
    let (stored, failed) = store_v2_pushed_chunk disks cid push.payload s in
    if private && not allow_private then (s, some not_authorized) else elim failed [
      | some e ↦ (stored, some e)
      | none ↦ record_stored blake3 disks private push.merkle_root push.chunk_index proof cid stored
    ]

-- A chunk that arrives, with how the disk answers, and whether a private one is accepted: it is when
-- pushed, and is not when pulled.
pub record Arrival : Type 0 where
  pub push : Push
  pub disks : Disks
  pub allow_private : Bool

module _ (ext : External) (cid_from_blake3_hash : Bytes → Text) (lrus : Lrus) (cfg : Config) where
  unfoldable pub accept_validated :
      Arrival → Caches lrus × Stores → (Caches lrus × Stores) × Option Refusal
  accept_validated a (caches, s) =
      let (moved, judged) = serve ext lrus cfg caches a.push in
      elim judged [
        | err e ↦ ((moved, s), some (rejected e))
        | ok v ↦
            let (after, failed) =
              accept_chunk_validated ext.blake3 cid_from_blake3_hash a.disks a.allow_private a.push
                v s in
            ((moved, after), failed)
      ]

  -- The arrivals, the last one first.
  unfoldable pub after_arrivals : List Arrival → Caches lrus × Stores → Caches lrus × Stores
  after_arrivals [] start = start
  after_arrivals (a ∷ earlier) start = (accept_validated a (after_arrivals earlier start)).0
