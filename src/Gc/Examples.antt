-- ===== src/Gc/Examples.antt =====
-- A chunk that two sweeps see unassigned, the second after the grace period.
use storage_node_interface_p.Prelude.{
  ℕ, ◌≡◌, ◌≤◌, ◌-◌, ◌&&◌, not, refl, true, false, if◌then◌else◌, none, [], ◌∷◌, leb,
}
use storage_node_interface_p.Prelude.Eq.{nat_eq, list_eq}
use storage_node_interface_p.Prelude.Assoc.{lookup, insert, remove, retain}
use storage_node_interface_p.Gc.{
  ChunkStore, first_seen, list_all_cids, delete, size_of, or_insert, expire, retained_one, visit,
  visit_all, sweep_where,
}
use storage_node_interface_p.Gc.Round.{Round, effective, sweep, lookup-sweep_where}
use storage_node_interface_p.Gc.Grace.{collector, UnassignedSince, swept-UnassignedSince}

abbrev store : ChunkStore
store = record { files = (1 ∷ [], 5 ∷ 6 ∷ []) ∷ []; listable = true; refuses = λ cid. false }

abbrev first_round : Round
first_round = record { store = store; elapsed = 10; now = 100; deletable = λ cid. true }

abbrev second_round : Round
second_round = record { store = store; elapsed = 10; now = 5_000; deletable = λ cid. true }

gone_after :
    lookup (1 ∷ []) (sweep (collector 3_000 (first_round ∷ [])) second_round).1.files ≡ none
unfolding collector sweep_where list_all_cids visit_all visit expire delete size_of or_insert
    first_seen retained_one lookup insert remove retain
gone_after = refl

lookup-sweep_where_example : lookup (1 ∷ []) (sweep (collector 3_000 []) first_round).1.files ≡ (
    if effective first_round
      && first_round.deletable (1 ∷ [])
      && leb (collector 3_000 []).grace_period (
          first_round.now
          - first_seen first_round.now (1 ∷ []) (collector 3_000 []).unassigned_since)
      && not (first_round.store.refuses (1 ∷ []))
    then none
    else lookup (1 ∷ []) first_round.store.files)
unfolding collector
lookup-sweep_where_example = lookup-sweep_where (collector 3_000 []) first_round (1 ∷ []) tt

swept-UnassignedSince_example :
    (effective second_round ≡ true)
    × (since : ℕ) × (3_000 ≤ second_round.now - since)
    × UnassignedSince (1 ∷ []) since (second_round ∷ first_round ∷ [])
unfolding lookup
swept-UnassignedSince_example =
    swept-UnassignedSince 3_000 (first_round ∷ []) second_round (1 ∷ []) (5 ∷ 6 ∷ []) refl
      gone_after
