-- ===== src/Merkle.antt =====
-- crates/sum-store/src/merkle.rs: the binary Merkle tree over chunk hashes, and its proofs.
-- A hash is its list of bytes. `blake3` is a parameter: the hasher fed `a` and then `b` hashes
-- `a ++ b`. `none` from `generate_proof` is the panic of an index out of bounds.
pub mod Levels
pub mod Shape
pub mod Sample
mod Examples
use storage_node_interface_p.Prelude.{
  ℕ, zero, suc, ◌+◌, ◌-◌, ◌/◌, ◌%◌, Bool, true, false, Option, none, some, List, [], ◌∷◌, ◌++◌,
  length, get_elem?, head?, get_last?, ltb, nat_beq, if◌then◌else◌,
}

abbrev pub Bytes : Type 0
Bytes = List ℕ

-- The digest of 32 zero bytes.
unfoldable pub zero_hash : Bytes
zero_hash = zeros 32
  where
    zeros : ℕ → Bytes
    zeros zero = []
    zeros (suc n) = 0 ∷ zeros n

pub record MerkleTree : Type 0 where
  pub levels : List (List Bytes)

-- The answer of a lookup, or that of the second when the first is out of bounds.
abbrev pub or_else {ℓ} : {A : Type ℓ} → Option A → Option A → Option A
or_else none d = d
or_else (some a) d = some a

module _ (blake3 : Bytes → Bytes) where
  unfoldable pub hash_pair : Bytes → Bytes → Bytes
  hash_pair left right = blake3 (left ++ right)

  -- The body of the `while` loop: `current.chunks(2)`, the last hash doubled if alone.
  unfoldable pub next_level : List Bytes → List Bytes
  next_level [] = []
  next_level (left ∷ []) = hash_pair left left ∷ []
  next_level (left ∷ right ∷ rest) = hash_pair left right ∷ next_level rest

  -- The levels that the loop pushes, from `current` on.
  unfoldable pub build_loop : ℕ → List Bytes → List (List Bytes)
  build_loop zero current = []
  build_loop (suc fuel) current =
      let pushed = next_level current ∷ build_loop fuel (next_level current) in
      if ltb 1 (length current) then pushed else []

  unfoldable pub build : List Bytes → MerkleTree
  build leaf_hashes =
      if nat_beq (length leaf_hashes) 0
      then record { levels = [] }
      else if nat_beq (length leaf_hashes) 1
      then record { levels = leaf_hashes ∷ [] }
      else record { levels = leaf_hashes ∷ build_loop (length leaf_hashes) leaf_hashes }

unfoldable pub root : MerkleTree → Bytes
root tree = elim (get_last? tree.levels) [
  | none ↦ zero_hash
  | some level ↦ elim (head? level) [ none ↦ zero_hash | some h ↦ h ]
]

unfoldable pub depth : MerkleTree → ℕ
depth tree = if ltb 1 (length tree.levels) then length tree.levels - 1 else 0

unfoldable pub leaf_count : MerkleTree → ℕ
leaf_count tree = elim (head? tree.levels) [ none ↦ 0 | some leaves ↦ length leaves ]

unfoldable pub sibling_idx : ℕ → ℕ
sibling_idx idx = if nat_beq (idx % 2) 0 then idx + 1 else idx - 1

-- Out of bounds the node was doubled.
unfoldable pub sibling : List Bytes → ℕ → Option Bytes
sibling level idx = or_else (get_elem? level (sibling_idx idx)) (get_elem? level idx)

-- `for level in 0..levels.len() - 1`: every level but the last.
unfoldable pub proof_walk : List (List Bytes) → ℕ → Option (List Bytes)
proof_walk [] idx = some []
proof_walk (level ∷ []) idx = some []
proof_walk (level ∷ above ∷ rest) idx =
    let later = proof_walk (above ∷ rest) (idx / 2) in
    elim (sibling level idx) [
      | none ↦ none
      | some s ↦ elim later [ none ↦ none | some path ↦ some (s ∷ path) ]
    ]

unfoldable pub generate_proof : MerkleTree → ℕ → Option (List Bytes)
generate_proof tree chunk_index =
    if ltb 1 (length tree.levels) then proof_walk tree.levels chunk_index else some []
