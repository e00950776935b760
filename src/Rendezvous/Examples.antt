-- ===== src/Rendezvous/Examples.antt =====
-- The V2 assignment over a wire crate that takes the first archives of the snapshot.
use storage_node_interface_p.Prelude.{ℕ, ◌≡◌, refl, List, [], ◌∷◌, find_by}
use storage_node_interface_p.Prelude.Eq.{nat_eq, contains}
use storage_node_interface_p.Merkle.Sample.{leaf_one}
use storage_node_interface_p.Rendezvous.{
  presorted_addresses, sort, insert_sorted, dedup, assigned_archives, first_chunk_assigned_to_any,
}
use storage_node_interface_p.Rendezvous.Snapshot.{IsStrict, presorted_addresses-IsStrict}
use storage_node_interface_p.Rendezvous.Sample.{first_wire, first_wire-IsLawful}
use storage_node_interface_p.Rendezvous.FirstHit.{Scanned, first_chunk_assigned_to_any-Scanned}

abbrev archives : List ℕ
archives = 30 ∷ 10 ∷ 20 ∷ 10 ∷ []

archives-presorted : presorted_addresses archives ≡ 10 ∷ 20 ∷ 30 ∷ []
unfolding presorted_addresses sort insert_sorted dedup
archives-presorted = refl

presorted_addresses-IsStrict_on_archives : IsStrict 0 (presorted_addresses archives)
presorted_addresses-IsStrict_on_archives = presorted_addresses-IsStrict archives

first_chunk_assigned_to_any-Scanned_example :
    Scanned
      (λ c. find_by (contains (99 ∷ 20 ∷ [])) (assigned_archives first_wire leaf_one archives c 2))
      0
      5
      (first_chunk_assigned_to_any first_wire leaf_one 5 archives 2 (99 ∷ 20 ∷ []))
first_chunk_assigned_to_any-Scanned_example =
    first_chunk_assigned_to_any-Scanned first_wire leaf_one first_wire-IsLawful 5 archives 2
      (99 ∷ 20 ∷ [])
