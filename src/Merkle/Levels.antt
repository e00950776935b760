-- ===== src/Merkle/Levels.antt =====
-- One level of the tree and the one above it.
use storage_node_interface_p.Prelude.{
  ℕ, zero, suc, ◌+◌, ◌/◌, ◌%◌, ◌≡◌, refl, ap, some, List, [], ◌∷◌, ◌++◌, arith, length, get_elem?,
  nat_beq, if◌then◌else◌,
}
use storage_node_interface_p.Merkle.{Bytes, hash_pair, next_level, sibling, sibling_idx}

-- Two places further on, the sibling is two places further on.
sibling_idx_below : (i : ℕ) → sibling_idx (suc (suc i)) ≡ suc (suc (sibling_idx i))
unfolding sibling_idx
sibling_idx_below i = ground arith

sibling_below :
    (a b : Bytes) (r : List Bytes) (i : ℕ) → sibling (a ∷ b ∷ r) (suc (suc i)) ≡ sibling r i
unfolding sibling
sibling_below a b r i = rw (sibling_idx_below i)

module _ (blake3 : Bytes → Bytes) where
  pub length-next_level : (xs : List Bytes) → length (next_level blake3 xs) ≡ (length xs + 1) / 2
  unfolding next_level
  length-next_level [] = refl
  length-next_level (a ∷ []) = refl
  length-next_level (a ∷ b ∷ r) = omega (arith, length-next_level r)

  -- A node and its sibling, hashed in the order of their places.
  unfoldable pub parent : ℕ → Bytes → Bytes → Bytes
  parent idx current s =
      if nat_beq (idx % 2) 0 then blake3 (current ++ s) else blake3 (s ++ current)

  parent_below : (i : ℕ) (x s : Bytes) → parent (suc (suc i)) x s ≡ parent i x s
  unfolding parent
  parent_below i x s =
      ap (λ (k : ℕ). if nat_beq k 0 then blake3 (x ++ s) else blake3 (s ++ x)) (omega arith)

  -- The node over `idx` is the hash of that node and its sibling.
  pub next_level-parent :
      (xs : List Bytes) (idx : ℕ) (x : Bytes)
      → get_elem? xs idx ≡ some x
      → (s : Bytes) × (sibling xs idx ≡ some s)
        × (get_elem? (next_level blake3 xs) (idx / 2) ≡ some (parent idx x s))
  unfolding next_level hash_pair parent sibling sibling_idx
  next_level-parent [] idx x e = absurd (cc)
  next_level-parent (a ∷ []) zero x e = (a, refl, cc)
  next_level-parent (a ∷ []) (suc i) x e = absurd (cc)
  next_level-parent (a ∷ b ∷ r) zero x e = (b, refl, cc)
  next_level-parent (a ∷ b ∷ r) (suc zero) x e = (a, refl, cc)
  next_level-parent (a ∷ b ∷ r) (suc (suc i)) x e =
      let (s, e1, e2) = next_level-parent r i x e in
      let half : suc (suc i) / 2 ≡ suc (i / 2) = omega arith in
      (s, rw (sibling_below a b r i) e1, rw (half, parent_below i x s) e2)
