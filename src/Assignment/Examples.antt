-- ===== src/Assignment/Examples.antt =====
-- The V1 assignment on concrete nodes.
use storage_node_interface_p.Prelude.{
  ℕ, ◌≡◌, refl, none, some, List, [], ◌∷◌, length, min, All, arith,
}
use storage_node_interface_p.Prelude.Eq.{nat_eq}
use storage_node_interface_p.Merkle.Sample.{digest, leaf_one}
use storage_node_interface_p.Assignment.{
  compute_chunk_assignment, chunks_for_node, chunks_from, probe,
}
use storage_node_interface_p.Assignment.Probe.{probe-total}
use storage_node_interface_p.Assignment.Replicas.{
  IsReplicaSet, compute_chunk_assignment-total, compute_chunk_assignment-endless,
}

abbrev three_nodes : List ℕ
three_nodes = 10 ∷ 20 ∷ 30 ∷ []

abbrev two_chunks : List (List ℕ)
two_chunks = (10 ∷ 20 ∷ []) ∷ (30 ∷ 10 ∷ []) ∷ []

chunks_of_ten : chunks_for_node two_chunks 10 ≡ 0 ∷ 1 ∷ []
unfolding chunks_for_node chunks_from
chunks_of_ten = refl

probe-total_on_three_nodes : (b : ℕ) × (probe (length three_nodes) three_nodes (30 ∷ []) 2 ≡ some b)
probe-total_on_three_nodes =
    probe-total three_nodes (30 ∷ []) 2 (refl, (refl, (refl, tt))) (omega arith) (omega arith)

compute_chunk_assignment-total_example :
    (result : List (List ℕ)) × (compute_chunk_assignment digest
        (length three_nodes)
        leaf_one
        three_nodes
        4
        2
      ≡ some result)
    × (length result ≡ 4)
    × All (IsReplicaSet three_nodes (min 2 (length three_nodes))) result
compute_chunk_assignment-total_example =
    compute_chunk_assignment-total digest leaf_one three_nodes 4 2 (refl, (refl, (refl, tt)))

compute_chunk_assignment-endless_example :
    compute_chunk_assignment digest 1_000 leaf_one (7 ∷ 7 ∷ []) 1 2 ≡ none
compute_chunk_assignment-endless_example =
    compute_chunk_assignment-endless digest 1_000 leaf_one (7 ∷ 7 ∷ []) (7 ∷ []) 1 2
      (refl, (refl, tt)) (omega arith) (omega arith)
