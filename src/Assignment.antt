-- ===== src/Assignment.antt =====
-- crates/sum-store/src/assignment.rs: the V1 assignment of chunks to nodes, by hashing each replica
-- to a place among the active nodes and probing on from there.
-- An address is the number that its 20 bytes spell, `blake3` a parameter, and `fuel` bounds the
-- probing `loop`: `none` means that it ran out.
pub mod Pigeonhole
pub mod Probe
pub mod Replicas
pub mod Lookup
mod Examples
use storage_node_interface_p.Prelude.{
  ℕ, zero, suc, ◌+◌, ◌*◌, ◌/◌, ◌%◌, ◌^◌, min, Bool, ◌||◌, Option, none, some, List, [], ◌∷◌, ◌++◌,
  length, get_elem?, nat_beq, if◌then◌else◌, replicate, take,
}
use storage_node_interface_p.Prelude.Eq.{contains, nat_eq}
use storage_node_interface_p.Merkle.{Bytes}

-- `u32::to_be_bytes`
unfoldable pub to_be_bytes : ℕ → Bytes
to_be_bytes x = (x / 2 ^ 24 % 256) ∷ (x / 2 ^ 16 % 256) ∷ (x / 2 ^ 8 % 256) ∷ (x % 256) ∷ []

-- `u64::from_be_bytes`, of a list of bytes.
unfoldable pub from_be_bytes : ℕ → Bytes → ℕ
from_be_bytes acc [] = acc
from_be_bytes acc (b ∷ bs) = from_be_bytes (acc * 256 + b) bs

-- The place that a replica of a chunk hashes to. `chunk_index as u32` drops the high half.
unfoldable pub start_index : (Bytes → Bytes) → Bytes → ℕ → ℕ → ℕ → ℕ
start_index blake3 merkle_root chunk_index replica n =
    from_be_bytes 0
      (take 8 (blake3 (merkle_root ++ to_be_bytes (chunk_index % 2 ^ 32) ++ to_be_bytes replica)))
    % n

-- The probing `loop`. An index out of bounds is a panic, also `none`.
unfoldable pub probe : ℕ → List ℕ → List ℕ → ℕ → Option ℕ
probe zero active_nodes assigned idx = none
probe (suc fuel) active_nodes assigned idx =
    let later = probe fuel active_nodes assigned ((idx + 1) % length active_nodes) in
    elim (get_elem? active_nodes idx) [
      | none ↦ none
      | some node ↦ if contains assigned node then later else some node
    ]

module _ (blake3 : Bytes → Bytes) (fuel : ℕ) (merkle_root : Bytes) (active_nodes : List ℕ) where
  -- The inner `for` loop, with `left` replicas to go.
  unfoldable pub assign_replicas : ℕ → ℕ → ℕ → List ℕ → Option (List ℕ)
  assign_replicas zero replica chunk_index assigned = some assigned
  assign_replicas (suc left) replica chunk_index assigned =
      elim (probe fuel active_nodes assigned
        (start_index blake3 merkle_root chunk_index replica (length active_nodes))) [
          | none ↦ none
          | some node ↦ assign_replicas left (replica + 1) chunk_index (assigned ++ (node ∷ []))
        ]

  -- The outer `for` loop, with `left` chunks to go.
  unfoldable pub assign_chunks : ℕ → ℕ → ℕ → Option (List (List ℕ))
  assign_chunks zero chunk_index replicas = some []
  assign_chunks (suc left) chunk_index replicas =
      let later = assign_chunks left (chunk_index + 1) replicas in
      elim (assign_replicas replicas 0 chunk_index []) [
        | none ↦ none
        | some assigned ↦ elim later [ none ↦ none | some rest ↦ some (assigned ∷ rest) ]
      ]

  unfoldable pub compute_chunk_assignment : ℕ → ℕ → Option (List (List ℕ))
  compute_chunk_assignment chunk_count replication_factor =
      if nat_beq (length active_nodes) 0 || nat_beq chunk_count 0
      then some (replicate chunk_count [])
      else assign_chunks chunk_count 0 (min replication_factor (length active_nodes))

-- The chunks, from `i` on, whose nodes contain the address.
unfoldable pub chunks_from : ℕ → List (List ℕ) → ℕ → List ℕ
chunks_from i [] node_address = []
chunks_from i (nodes ∷ rest) node_address =
    let later = chunks_from (i + 1) rest node_address in
    if contains nodes node_address then (i % 2 ^ 32) ∷ later else later

unfoldable pub chunks_for_node : List (List ℕ) → ℕ → List ℕ
chunks_for_node assignment node_address = chunks_from 0 assignment node_address

unfoldable pub nodes_for_chunk : List (List ℕ) → ℕ → Option (List ℕ)
nodes_for_chunk assignment chunk_index = get_elem? assignment chunk_index
