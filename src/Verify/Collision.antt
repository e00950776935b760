-- ===== src/Verify/Collision.antt =====
-- What an accepted proof says: the chunk is the tree's leaf, or two inputs of the hash collide.
use storage_node_interface_p.Prelude.{
  ℕ, zero, suc, ◌/◌, ◌%◌, ◌^◌, ◌<◌, ◌≡◌, refl, sym, subst, ◌∙◌, ◌≢◌, ◌⊎◌, inl, inr, Bool, true,
  false, some, List, [], ◌∷◌, ◌++◌, arith, length, All, get_elem?, nat_beq, if◌then◌else◌,
  Bool-cases, Option-cases, get_elem?-All,
}
use storage_node_interface_p.Prelude.Eq.{◌==◌, list_eq, nat_eq, list_beq_iff}
use storage_node_interface_p.Merkle.{
  Bytes, MerkleTree, next_level, hash_pair, build_loop, build, root, sibling, sibling_idx,
  proof_walk, generate_proof,
}
use storage_node_interface_p.Merkle.Levels.{parent}
use storage_node_interface_p.Merkle.Shape.{generate_proof-walk}
use storage_node_interface_p.Verify.{verify_merkle_proof_bytes_for_tree}
use storage_node_interface_p.Verify.Climb.{climb, verify_iff}
use storage_node_interface_p.Verify.Complete.{generate_proof-verifies}

abbrev pub Is32 : Bytes → Type 0
Is32 h = length h ≡ 32

-- What is hashed at a node: it and its sibling, in the order of the tree.
abbrev pub preimage : ℕ → Bytes → Bytes → Bytes
preimage idx x s = if nat_beq (idx % 2) 0 then x ++ s else s ++ x

-- At some level two climbs hash different inputs to one value.
abbrev pub Collides : (Bytes → Bytes) → ℕ → Bytes → List Bytes → Bytes → List Bytes → Type 0
Collides blake3 idx x [] y q = ⊥
Collides blake3 idx x (s ∷ p) y [] = ⊥
Collides blake3 idx x (s ∷ p) y (t ∷ q) =
    ((preimage idx x s ≢ preimage idx y t)
      × (blake3 (preimage idx x s) ≡ blake3 (preimage idx y t)))
    ⊎ Collides blake3 (idx / 2) (parent blake3 idx x s) p (parent blake3 idx y t) q

append-injective : (a b c d : Bytes) → length a ≡ length c → a ++ b ≡ c ++ d → (a ≡ c) × (b ≡ d)
append-injective [] b [] d h e = (refl, e)
append-injective [] b (y ∷ c) d h e = absurd (omega arith)
append-injective (x ∷ a) b [] d h e = absurd (omega arith)
append-injective (x ∷ a) b (y ∷ c) d h e =
    let tails = append-injective a b c d (omega arith) (cc) in (ground arith, tails.1)

ne_of_false : {b : Bool} → b ≡ false → b ≡ true → ⊥
ne_of_false e f = cc

sibling-Is32 :
    (level : List Bytes) (i : ℕ) {s : Bytes} → All Is32 level → sibling level i ≡ some s → Is32 s
unfolding sibling
sibling-Is32 level i h e = elim (Option-cases (get_elem? level (sibling_idx i))) [
  | inl missing ↦ get_elem?-All Is32 level i h (rw missing at e)
  | inr (t, found) ↦ get_elem?-All Is32 level (sibling_idx i) h (found ∙ (rw found at e))
]

proof_walk-Is32 :
    (ls : List (List Bytes)) (i : ℕ) {path : List Bytes}
    → All (All Is32) ls
    → proof_walk ls i ≡ some path
    → All Is32 path
unfolding proof_walk
proof_walk-Is32 [] i h e = subst (All Is32) {x = []} (cc) tt
proof_walk-Is32 (l ∷ []) i h e = subst (All Is32) {x = []} (cc) tt
proof_walk-Is32 (l ∷ m ∷ r) i h e = elim (Option-cases (sibling l i)) [
  | inl missing ↦ absurd (ground arith)
  | inr (s, found) ↦ elim (Option-cases (proof_walk (m ∷ r) (i / 2))) [
    | inl missing ↦ absurd (ground arith)
    | inr (later, walked) ↦
        subst (All Is32) {x = s ∷ later} (ground arith)
          (sibling-Is32 l i h.0 found, proof_walk-Is32 (m ∷ r) (i / 2) h.1 walked)
  ]
]

generate_proof-Is32 :
    (tree : MerkleTree) (i : ℕ) {path : List Bytes}
    → All (All Is32) tree.levels
    → generate_proof tree i ≡ some path
    → All Is32 path
generate_proof-Is32 tree i h e =
    proof_walk-Is32 tree.levels i h (sym (generate_proof-walk tree i) ∙ e)

module _ (blake3 : Bytes → Bytes) where
  -- Different nodes with one parent.
  parent-Collision :
      (i : ℕ) (x y s t : Bytes)
      → length x ≡ length y
      → length s ≡ length t
      → x ≢ y
      → parent blake3 i x s ≡ parent blake3 i y t
      → (preimage i x s ≢ preimage i y t) × (blake3 (preimage i x s) ≡ blake3 (preimage i y t))
  unfolding parent
  parent-Collision i x y s t h k ne e = elim (Bool-cases (nat_beq (i % 2) 0)) [
    | inl left ↦ rw left ((λ p. ne (append-injective x s y t h p).0), ground (arith, left, e))
    | inr right ↦ rw right ((λ p. ne (append-injective s x t y k p).1), ground (arith, right, e))
  ]

  parent-Is32 : (i : ℕ) (x s : Bytes) → ((a : Bytes) → Is32 (blake3 a)) → Is32 (parent blake3 i x s)
  unfolding parent
  parent-Is32 i x s h32 = ground (arith, h32 (x ++ s), h32 (s ++ x))

  climb-Collision :
      (i : ℕ) (x y : Bytes) (p q : List Bytes)
      → Is32 x
      → Is32 y
      → All Is32 p
      → All Is32 q
      → length p ≡ length q
      → ((a : Bytes) → Is32 (blake3 a))
      → climb blake3 i x p ≡ climb blake3 i y q
      → (x ≡ y) ⊎ Collides blake3 i x p y q
  unfolding climb
  climb-Collision i x y [] [] hx hy hp hq l h32 e = inl e
  climb-Collision i x y [] (t ∷ q) hx hy hp hq l h32 e = absurd (omega arith)
  climb-Collision i x y (s ∷ p) [] hx hy hp hq l h32 e = absurd (omega arith)
  climb-Collision i x y (s ∷ p) (t ∷ q) hx hy hp hq l h32 e =
      let above =
        climb-Collision (i / 2) (parent blake3 i x s) (parent blake3 i y t) p q
          (parent-Is32 i x s h32) (parent-Is32 i y t h32) hp.1 hq.1 (omega arith) h32 e in
      elim above [
        | inl met ↦ elim (Bool-cases (x == y)) [
          | inl same ↦ inl ((list_beq_iff x y).0 same)
          | inr other ↦ inr (
              inl (
                parent-Collision i x y s t (hx ∙ sym hy) (omega arith)
                  (λ p. ne_of_false other ((list_beq_iff x y).1 p)) met))
        ]
        | inr found ↦ inr (inr found)
      ]

  next_level-Is32 :
      (xs : List Bytes) → ((a : Bytes) → Is32 (blake3 a)) → All Is32 (next_level blake3 xs)
  unfolding next_level hash_pair
  next_level-Is32 [] h32 = tt
  next_level-Is32 (a ∷ []) h32 = (h32 _, tt)
  next_level-Is32 (a ∷ b ∷ r) h32 = (h32 _, next_level-Is32 r h32)

  build_loop-Is32 :
      (fuel : ℕ) (cur : List Bytes)
      → ((a : Bytes) → Is32 (blake3 a))
      → All (All Is32) (build_loop blake3 fuel cur)
  unfolding build_loop
  build_loop-Is32 zero cur h32 = tt
  build_loop-Is32 (suc fuel) cur h32 =
      ground (arith, next_level-Is32 cur h32, build_loop-Is32 fuel (next_level blake3 cur) h32)

  build-Is32 :
      (leaves : List Bytes)
      → ((a : Bytes) → Is32 (blake3 a))
      → All Is32 leaves
      → All (All Is32) (build blake3 leaves).levels
  unfolding build
  build-Is32 leaves h32 h = ground (arith, build_loop-Is32 (length leaves) leaves h32)

  -- With a hash of 32 bytes, if the strict verifier accepts a chunk hash of 32 bytes and a path of
  -- such hashes, at an index in range, against the root and the number of fewer than 2^32 leaves
  -- of 32 bytes, then it is the leaf at that index, or the accepted path and the path that
  -- `generate_proof` makes exhibit a collision: at some level they hash different inputs to one
  -- value.
  pub verify_sound :
      (leaves : List Bytes) (i : ℕ) (x y : Bytes) (path : List Bytes)
      → length leaves < 2 ^ 32
      → ((a : Bytes) → Is32 (blake3 a))
      → All Is32 leaves
      → All Is32 path
      → Is32 x
      → get_elem? leaves i ≡ some y
      → verify_merkle_proof_bytes_for_tree blake3 x i path
          (root (build blake3 leaves))
          (length leaves)
        ≡ true
      → (made : List Bytes) × (generate_proof (build blake3 leaves) i ≡ some made)
        × ((x ≡ y) ⊎ Collides blake3 i x path y made)
  verify_sound leaves i x y path b h32 hl hp hx e accepted =
      let (made, generated, good) = generate_proof-verifies blake3 leaves i y b e in
      let top = root (build blake3 leaves) in
      let n = length leaves in
      let given = (verify_iff blake3 x i path top n (omega arith)).0 accepted in
      let own = (verify_iff blake3 y i made top n (omega arith)).0 good in
      (
        made,
        generated,
        climb-Collision i x y path made hx (get_elem?-All Is32 leaves i hl e) hp
            (generate_proof-Is32 (build blake3 leaves) i (build-Is32 leaves h32 hl) generated)
            (given.1 ∙ sym own.1) h32 (given.2 ∙ sym own.2),
      )
