-- ===== src/Merkle/Shape.antt =====
-- The levels that `build` makes, and that its fuel is enough.
use storage_node_interface_p.Prelude.{
  ℕ, zero, suc, ◌≤◌, ◌<◌, ◌≡◌, refl, some, List, [], ◌∷◌, arith, length, ltb, if◌then◌else◌,
  Bool-cases, inl, inr, lt→ltb,
}
use storage_node_interface_p.Merkle.{
  Bytes, MerkleTree, next_level, build_loop, build, proof_walk, generate_proof,
}
use storage_node_interface_p.Merkle.Levels.{length-next_level}

-- Each level but the last has two nodes or more and its parents lie above it; the last has one.
abbrev pub IsTree : (Bytes → Bytes) → List (List Bytes) → Type 0
IsTree blake3 [] = Unit {0}
IsTree blake3 (level ∷ []) = length level ≡ 1
IsTree blake3 (level ∷ above ∷ rest) =
    (1 < length level) × (above ≡ next_level blake3 level) × IsTree blake3 (above ∷ rest)

walk-levels :
    (ls : List (List Bytes)) (i : ℕ)
    → (if ltb 1 (length ls) then proof_walk ls i else some []) ≡ proof_walk ls i
unfolding proof_walk
walk-levels [] i = refl
walk-levels (l ∷ []) i = refl
walk-levels (l ∷ m ∷ r) i = rw (lt→ltb 1 (suc (suc (length r))) (omega arith))

pub generate_proof-walk :
    (tree : MerkleTree) (i : ℕ) → generate_proof tree i ≡ proof_walk tree.levels i
unfolding generate_proof
generate_proof-walk tree i = walk-levels tree.levels i

module _ (blake3 : Bytes → Bytes) where
  pub build_loop-more :
      (fuel : ℕ) (cur : List Bytes)
      → 1 < length cur
      → build_loop blake3 (suc fuel) cur
        ≡ next_level blake3 cur ∷ build_loop blake3 fuel (next_level blake3 cur)
  unfolding build_loop
  build_loop-more fuel cur h = rw (lt→ltb 1 (length cur) h)

  pub build_loop-done :
      (fuel : ℕ) (cur : List Bytes) → length cur ≤ 1 → build_loop blake3 fuel cur ≡ []
  unfolding build_loop
  build_loop-done zero cur h = refl
  build_loop-done (suc fuel) cur h = ground arith

  -- On a list that is not empty the three cases of `build` are one.
  pub build-levels :
      (leaves : List Bytes)
      → 0 < length leaves
      → build blake3 leaves ≡ record { levels = leaves ∷ build_loop blake3 (length leaves) leaves }
  unfolding build
  build-levels leaves h = ground (arith, build_loop-done (length leaves) leaves)

  build_loop-IsTree :
      (fuel : ℕ) (cur : List Bytes)
      → 0 < length cur
      → length cur ≤ fuel
      → IsTree blake3 (cur ∷ build_loop blake3 fuel cur)
  build_loop-IsTree zero cur h k = absurd (omega arith)
  build_loop-IsTree (suc fuel) cur h k = elim (Bool-cases (ltb 1 (length cur))) [
    | inl more ↦
        let lt : 1 < length cur = ground arith in
        let n = length-next_level blake3 cur in
        rw (build_loop-more fuel cur lt)
          (lt, refl, build_loop-IsTree fuel (next_level blake3 cur) (omega arith) (omega arith))
    | inr done ↦ rw (build_loop-done (suc fuel) cur (ground arith)) (ground arith)
  ]

  -- The tree of any leaves is a tree over them, and the loop's fuel does not run out.
  pub build-IsTree :
      (leaves : List Bytes)
      → 0 < length leaves
      → ((build blake3 leaves).levels ≡ leaves ∷ build_loop blake3 (length leaves) leaves)
        × IsTree blake3 (build blake3 leaves).levels
  build-IsTree leaves h =
      rw (build-levels leaves h) (refl, build_loop-IsTree (length leaves) leaves h (omega arith))
