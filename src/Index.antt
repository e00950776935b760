-- ===== src/Index.antt =====
-- crates/sum-store/src/manifest_index.rs: the records that a manifest index keeps of the chunks pushed
-- to it. The sidecar files are parameters: a call is given how the disk answers it.
pub mod Table
pub mod Records
use storage_node_interface_p.Prelude.{
  ℕ, ◌/◌, ◌^◌, Bool, true, false, ◌&&◌, ◌||◌, not, Option, none, some, List, [], ◌∷◌, ◌++◌, length,
  leb, nat_beq, if◌then◌else◌, Result, ok, err,
}
use storage_node_interface_p.Prelude.Eq.{◌==◌, nat_eq, list_eq, contains}
use storage_node_interface_p.Prelude.Assoc.{Assoc, lookup, insert}
use storage_node_interface_p.Text.{Text, text, hex_root}
use storage_node_interface_p.Merkle.{Bytes}
use storage_node_interface_p.Verify.{verify_merkle_proof}
use storage_node_interface_p.Audit.{PushedProof}
use storage_node_interface_p.Index.Table.{Rows, find, file}

-- Whether a file was opened, the directory synced, and the line written and synced.
pub record Disk : Type 0 where
  pub opened : Bool
  pub synced_dir : Bool
  pub written : Bool

pub data StoreError : Type 0 where
  opened_read_only : StoreError
  list_not_initialized : StoreError
  list_unavailable : StoreError
  rebind_refused : StoreError
  not_to_root : StoreError
  io : StoreError

-- The fields that record pushed chunks.
pub record ManifestIndex : Type 0 where
  pub private_cid_to_root : Assoc Text Bytes
  pub gc_protected : List Text
  pub v2_held : Rows Text
  pub v2_proofs : Rows PushedProof
  pub durable_sidecars : List Text
  -- none until the protected list exists
  pub gc_protection_intact : Option Bool
  pub read_only : Bool

abbrev pub max_pushed_proof_depth : ℕ
max_pushed_proof_depth = 32

-- `checked_shr(depth).unwrap_or(0)` of a 32-bit index.
unfoldable pub shift_right : ℕ → ℕ → ℕ
shift_right index depth = if leb 32 depth then 0 else index / 2 ^ depth

unfoldable pub pushed_proof_verifies : (Bytes → Bytes) → Bytes → ℕ → PushedProof → Bool
pushed_proof_verifies blake3 root chunk_index proof =
    leb (length proof.path) max_pushed_proof_depth
    && nat_beq (shift_right chunk_index (length proof.path)) 0
    && verify_merkle_proof blake3 proof.leaf chunk_index proof.path root

-- The sidecars whose directory entry is durable afterwards, and the outcome.
unfoldable pub append_sidecar_line :
    Disk → Bool → Text → List Text → List Text × Result StoreError (Unit {0})
append_sidecar_line disk read_only path durable =
    if read_only
    then (durable, err opened_read_only)
    else if not disk.opened
    then (durable, err io)
    else if not (contains durable path) && not disk.synced_dir
    then (durable, err io)
    else (
      if contains durable path then durable else path ∷ durable,
      if disk.written then ok tt else err io,
    )

abbrev with_sidecars : ManifestIndex → List Text → ManifestIndex
with_sidecars idx durable = record {
  private_cid_to_root = idx.private_cid_to_root;
  gc_protected = idx.gc_protected;
  v2_held = idx.v2_held;
  v2_proofs = idx.v2_proofs;
  durable_sidecars = durable;
  gc_protection_intact = idx.gc_protection_intact;
  read_only = idx.read_only;
}

unfoldable pub record_private_chunk_cid :
    Disk → Bytes → Text → ManifestIndex → ManifestIndex × Result StoreError (Unit {0})
record_private_chunk_cid disk merkle_root cid idx = elim (lookup cid idx.private_cid_to_root) [
  | some existing ↦ (idx, if existing == merkle_root then ok tt else err rebind_refused)
  | none ↦
      let (durable, wrote) =
        append_sidecar_line disk idx.read_only (hex_root merkle_root ++ text ".private_chunks")
          idx.durable_sidecars in
      elim wrote [
        | err e ↦ (with_sidecars idx durable, err e)
        | ok u ↦ (
          record {
            private_cid_to_root = insert cid merkle_root idx.private_cid_to_root;
            gc_protected = idx.gc_protected;
            v2_held = idx.v2_held;
            v2_proofs = idx.v2_proofs;
            durable_sidecars = durable;
            gc_protection_intact = idx.gc_protection_intact;
            read_only = idx.read_only;
          },
          ok tt,
        )
      ]
]

abbrev with_protection : ManifestIndex → List Text → Option Bool → ManifestIndex
with_protection idx protected intact = record {
  private_cid_to_root = idx.private_cid_to_root;
  gc_protected = protected;
  v2_held = idx.v2_held;
  v2_proofs = idx.v2_proofs;
  durable_sidecars = idx.durable_sidecars;
  gc_protection_intact = intact;
  read_only = idx.read_only;
}

unfoldable pub append_gc_protected_line : Disk → Bool → Result StoreError (Unit {0})
append_gc_protected_line disk read_only =
    if read_only
    then err opened_read_only
    else if disk.opened && disk.written
    then ok tt
    else err io

unfoldable pub record_v2_held_chunk :
    Disk → Text → ManifestIndex → ManifestIndex × Result StoreError (Unit {0})
record_v2_held_chunk disk cid idx =
    if contains idx.gc_protected cid then (idx, ok tt) else elim idx.gc_protection_intact [
      | none ↦ (idx, err list_not_initialized)
      | some false ↦ (idx, err list_unavailable)
      | some true ↦ elim (append_gc_protected_line disk idx.read_only) [
        | err e ↦ (with_protection idx idx.gc_protected (some false), err e)
        | ok u ↦ (with_protection idx (cid ∷ idx.gc_protected) idx.gc_protection_intact, ok tt)
      ]
    ]

unfoldable pub record_v2_held_index :
    Disk → Bytes → ℕ → Text → ManifestIndex → ManifestIndex × Result StoreError (Unit {0})
record_v2_held_index disk merkle_root chunk_index cid idx =
    elim (find merkle_root chunk_index idx.v2_held) [
      | some existing ↦ (idx, if existing == cid then ok tt else err rebind_refused)
      | none ↦
          let (durable, wrote) =
            append_sidecar_line disk idx.read_only (hex_root merkle_root ++ text ".v2_held")
              idx.durable_sidecars in
          elim wrote [
            | err e ↦ (with_sidecars idx durable, err e)
            | ok u ↦ (
              record {
                private_cid_to_root = idx.private_cid_to_root;
                gc_protected = idx.gc_protected;
                v2_held = file merkle_root chunk_index cid idx.v2_held;
                v2_proofs = idx.v2_proofs;
                durable_sidecars = durable;
                gc_protection_intact = idx.gc_protection_intact;
                read_only = idx.read_only;
              },
              ok tt,
            )
          ]
    ]

unfoldable pub record_v2_pushed_proof :
    (Bytes → Bytes)
    → Disk
    → Bytes
    → ℕ
    → PushedProof
    → ManifestIndex
    → ManifestIndex × Result StoreError (Unit {0})
record_v2_pushed_proof blake3 disk merkle_root chunk_index proof idx =
    elim (find merkle_root chunk_index idx.v2_proofs) [
      | some existing ↦ (
        idx,
        if existing.leaf == proof.leaf && existing.path == proof.path
            then ok tt
            else err rebind_refused,
      )
      | none ↦
          if not (pushed_proof_verifies blake3 merkle_root chunk_index proof)
          then (idx, err not_to_root)
          else let (durable, wrote) =
              append_sidecar_line disk idx.read_only (hex_root merkle_root ++ text ".v2_proofs")
                idx.durable_sidecars in
            elim wrote [
              | err e ↦ (with_sidecars idx durable, err e)
              | ok u ↦ (
                record {
                  private_cid_to_root = idx.private_cid_to_root;
                  gc_protected = idx.gc_protected;
                  v2_held = idx.v2_held;
                  v2_proofs = file merkle_root chunk_index proof idx.v2_proofs;
                  durable_sidecars = durable;
                  gc_protection_intact = idx.gc_protection_intact;
                  read_only = idx.read_only;
                },
                ok tt,
              )
            ]
    ]
