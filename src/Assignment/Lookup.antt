-- ===== src/Assignment/Lookup.antt =====
-- The two readings of an assignment agree.
use storage_node_interface_p.Prelude.{
  ℕ, zero, suc, ◌+◌, ◌^◌, ◌≤◌, ◌<◌, ◌≡◌, refl, Bool, false, Option, none, some, List, [], ◌∷◌,
  arith, length, get_elem?,
}
use storage_node_interface_p.Prelude.Eq.{contains, nat_eq}
use storage_node_interface_p.Assignment.{chunks_from, chunks_for_node, nodes_for_chunk}

-- Whether the nodes, if any, contain the address.
abbrev pub holds : Option (List ℕ) → ℕ → Bool
holds none a = false
holds (some nodes) a = contains nodes a

chunks_from-before :
    (i : ℕ) (asg : List (List ℕ)) (a c : ℕ)
    → i + length asg ≤ 2 ^ 32
    → c < i
    → contains (chunks_from i asg a) c ≡ false
unfolding chunks_from
chunks_from-before i [] a c h k = refl
chunks_from-before i (nodes ∷ rest) a c h k = ground (arith, chunks_from-before (i + 1) rest a c)

chunks_from-contains :
    (i : ℕ) (asg : List (List ℕ)) (a c j : ℕ)
    → i + length asg ≤ 2 ^ 32
    → i + c ≡ j
    → contains (chunks_from i asg a) j ≡ holds (get_elem? asg c) a
unfolding chunks_from
chunks_from-contains i [] a c j h e = refl
chunks_from-contains i (nodes ∷ rest) a zero j h e =
    ground (arith, chunks_from-before (i + 1) rest a j)
chunks_from-contains i (nodes ∷ rest) a (suc c) j h e =
    ground (arith, chunks_from-contains (i + 1) rest a c j)

-- In an assignment of at most 2^32 chunks, `chunks_for_node` lists a chunk for a node exactly when
-- `nodes_for_chunk` of the chunk holds the node.
pub chunks_for_node-nodes_for_chunk :
    (assignment : List (List ℕ)) (node_address chunk_index : ℕ)
    → length assignment ≤ 2 ^ 32
    → contains (chunks_for_node assignment node_address) chunk_index
      ≡ holds (nodes_for_chunk assignment chunk_index) node_address
unfolding chunks_for_node nodes_for_chunk
chunks_for_node-nodes_for_chunk asg a c h =
    chunks_from-contains 0 asg a c c (omega arith) (omega arith)
