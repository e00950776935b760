-- ===== src/Merkle/Sample.antt =====
-- Test data: a digest of 32 bytes, and three chunks.
use storage_node_interface_p.Prelude.{ℕ, ◌+◌, ◌*◌, ◌%◌, List, [], ◌∷◌, length, replicate}
use storage_node_interface_p.Merkle.{Bytes}

abbrev pub weigh : Bytes → ℕ
weigh [] = 1
weigh (b ∷ bs) = b + 3 * weigh bs

abbrev pub digest : Bytes → Bytes
digest a = (weigh a % 251) ∷ (length a % 256) ∷ replicate 30 7

abbrev pub leaf_one : Bytes
leaf_one = digest (1 ∷ [])

abbrev pub leaf_two : Bytes
leaf_two = digest (2 ∷ [])

abbrev pub leaf_three : Bytes
leaf_three = digest (3 ∷ [])

abbrev pub three_leaves : List Bytes
three_leaves = leaf_one ∷ leaf_two ∷ leaf_three ∷ []
