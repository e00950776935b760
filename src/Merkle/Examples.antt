-- ===== src/Merkle/Examples.antt =====
-- Concrete trees.
use storage_node_interface_p.Prelude.{◌≡◌, refl, ◌∷◌, length, arith}
use storage_node_interface_p.Merkle.{build, build_loop, next_level, depth, leaf_count}
use storage_node_interface_p.Merkle.Shape.{IsTree, build-IsTree}
use storage_node_interface_p.Merkle.Sample.{digest, three_leaves}

three_leaves-depth :
    (depth (build digest three_leaves) ≡ 2) × (leaf_count (build digest three_leaves) ≡ 3)
unfolding depth leaf_count build build_loop next_level
three_leaves-depth = (refl, refl)

build-IsTree_on_three_leaves :
    ((build digest three_leaves).levels
      ≡ three_leaves ∷ build_loop digest (length three_leaves) three_leaves)
    × IsTree digest (build digest three_leaves).levels
build-IsTree_on_three_leaves = build-IsTree digest three_leaves (omega arith)
