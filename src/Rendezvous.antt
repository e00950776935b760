-- ===== src/Rendezvous.antt =====
-- crates/sum-store/src/assignment_v2.rs: the V2 assignment. The scorer and the sets of a chunk are
-- the wire crate's, a parameter here: `wire_assigned_archives` takes any snapshot,
-- `wire_assigned_archives_presorted` a sorted one without duplicates.
-- An address is the number that its 20 bytes spell, whose order is the order of the bytes. A
-- `BTreeSet` is its elements in ascending order.
pub mod Snapshot
pub mod Sets
pub mod FirstHit
pub mod Sample
mod Examples
use storage_node_interface_p.Prelude.{
  ℕ, zero, suc, ◌+◌, ◌<◌, ◌≡◌, Bool, true, ◌&&◌, not, Option, none, some, List, [], ◌∷◌, map,
  length, leb, nat_beq, if◌then◌else◌, range_from, filter_by, find_by,
}
use storage_node_interface_p.Prelude.Eq.{contains, nat_eq}
use storage_node_interface_p.Merkle.{Bytes}

pub record Wire : Type 0 where
  pub wire_assigned_archives : Bytes → List ℕ → ℕ → ℕ → List ℕ
  pub wire_assigned_archives_presorted : Bytes → List ℕ → ℕ → ℕ → List ℕ

unfoldable pub insert_sorted : ℕ → List ℕ → List ℕ
insert_sorted a [] = a ∷ []
insert_sorted a (x ∷ xs) = if leb a x then a ∷ x ∷ xs else x ∷ insert_sorted a xs

-- `sort_unstable`
unfoldable pub sort : List ℕ → List ℕ
sort [] = []
sort (x ∷ xs) = insert_sorted x (sort xs)

-- `dedup`: runs of equal elements become one.
unfoldable pub dedup : List ℕ → List ℕ
dedup [] = []
dedup (x ∷ []) = x ∷ []
dedup (x ∷ y ∷ ys) = let rest = dedup (y ∷ ys) in if nat_beq x y then rest else x ∷ rest

unfoldable pub presorted_addresses : List ℕ → List ℕ
presorted_addresses snapshot = dedup (sort snapshot)

module _ (wire : Wire) (merkle_root : Bytes) where
  open wire use {wire_assigned_archives, wire_assigned_archives_presorted}

  unfoldable pub assigned_archives : List ℕ → ℕ → ℕ → List ℕ
  assigned_archives snapshot chunk_index replication_factor =
      wire_assigned_archives merkle_root snapshot chunk_index replication_factor

  unfoldable pub compute_assignment_v2 : ℕ → List ℕ → ℕ → List (List ℕ)
  compute_assignment_v2 chunk_count snapshot replication_factor =
      let presorted = presorted_addresses snapshot in
      map
        (λ chunk_index.
          wire_assigned_archives_presorted merkle_root presorted chunk_index replication_factor)
        (range_from 0 chunk_count)

  -- The set is filled in ascending order. On a sorted list `binary_search` finds the members.
  unfoldable pub chunks_for_archive_v2 : ℕ → List ℕ → ℕ → ℕ → List ℕ
  chunks_for_archive_v2 chunk_count snapshot replication_factor archive =
      let presorted = presorted_addresses snapshot in
      if not (contains presorted archive)
      then []
      else filter_by
          (λ chunk_index.
            contains
              (wire_assigned_archives_presorted merkle_root presorted chunk_index
                replication_factor)
              archive)
          (range_from 0 chunk_count)

  -- The loop over the chunks, from `chunk_index` on, with `left` to go.
  unfoldable pub scan_chunks : List ℕ → ℕ → List ℕ → ℕ → ℕ → Option (ℕ × ℕ)
  scan_chunks presorted replication_factor wanted zero chunk_index = none
  scan_chunks presorted replication_factor wanted (suc left) chunk_index =
      let later = scan_chunks presorted replication_factor wanted left (chunk_index + 1) in
      elim (find_by (contains wanted)
        (wire_assigned_archives_presorted merkle_root presorted chunk_index replication_factor)) [
          | some hit ↦ some (chunk_index, hit)
          | none ↦ later
        ]

  unfoldable pub first_chunk_assigned_to_any : ℕ → List ℕ → ℕ → List ℕ → Option (ℕ × ℕ)
  first_chunk_assigned_to_any chunk_count snapshot replication_factor targets =
      let presorted = presorted_addresses snapshot in
      let wanted = filter_by (contains presorted) targets in
      if nat_beq (length wanted) 0
      then none
      else scan_chunks presorted replication_factor wanted chunk_count 0

-- What the code relies on in the wire crate: a set is taken from the candidates, and the entry
-- point for any snapshot sorts and drops duplicates first.
pub record IsLawful (wire : Wire) : Type 0 where
  pub from_candidates :
      (root : Bytes) (presorted : List ℕ) (chunk replicas a : ℕ)
      → contains (wire.wire_assigned_archives_presorted root presorted chunk replicas) a ≡ true
      → contains presorted a ≡ true
  pub canonical :
      (root : Bytes) (snapshot : List ℕ) (chunk replicas : ℕ)
      → wire.wire_assigned_archives root snapshot chunk replicas
        ≡ wire.wire_assigned_archives_presorted root (presorted_addresses snapshot) chunk replicas
