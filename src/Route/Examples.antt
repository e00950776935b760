-- ===== src/Route/Examples.antt =====
-- Asks of three archives of which the first is never identified, and the view of a file of one chunk.
use storage_node_interface_p.Prelude.{ℕ, ◌≡◌, ◌≤◌, refl, true, false, some, none, [], ◌∷◌, ok}
use storage_node_interface_p.Prelude.Assoc.{Assoc, lookup, insert, remove}
use storage_node_interface_p.Prelude.Eq.{nat_eq}
use storage_node_interface_p.Assignment.{from_be_bytes}
use storage_node_interface_p.Merkle.Sample.{leaf_one}
use storage_node_interface_p.Rendezvous.{
  presorted_addresses, sort, insert_sorted, dedup, assigned_archives,
}
use storage_node_interface_p.PushValidator.Ask.{
  is_active_archive, filter_active_archives, l1_address_from_base58,
}
use storage_node_interface_p.PushValidator.Sample.{external, row, chain}
use storage_node_interface_p.Attestor.{drop}
use storage_node_interface_p.Route.{
  v1_legacy, v2_public, route_download_target, V2AssignmentView, parse_addresses, insert_all,
  assign_all, view_of, build_v2_assignment_view, first_identified, next_assigned_archive, pull_out,
  rotate, mark_archive_asked,
}
use storage_node_interface_p.Route.Order.{count, ask, after_asks, after_asks-count}
use storage_node_interface_p.Route.View.{Routes, build_v2_assignment_view-Routes}

abbrev identified : Assoc ℕ ℕ
identified = (20, 200) ∷ (30, 300) ∷ []

-- In the grace period nobody is asked, after it 20 and then 30.
asked_in_turn :
    (after_asks
      (10 ∷ 20 ∷ 30 ∷ [])
      ((identified, true) ∷ (identified, true) ∷ (identified, false) ∷ [])).asked
    ≡ 20 ∷ 30 ∷ []
unfolding after_asks ask next_assigned_archive first_identified drop lookup mark_archive_asked
    rotate pull_out
asked_in_turn = refl

waiting_stays :
    (after_asks (10 ∷ 20 ∷ 30 ∷ []) ((identified, true) ∷ (identified, true) ∷ [])).order
    ≡ 20 ∷ 30 ∷ 10 ∷ []
unfolding after_asks ask next_assigned_archive first_identified drop lookup mark_archive_asked
    rotate pull_out
waiting_stays = refl

after_asks-count_example :
    (count 20 (after_asks (10 ∷ 20 ∷ 30 ∷ []) ((identified, true) ∷ [])).asked ≤ 1)
    × ((after_asks (10 ∷ 20 ∷ 30 ∷ []) ((identified, true) ∷ [])).next ≡ 3
        → count 20 (after_asks (10 ∷ 20 ∷ 30 ∷ []) ((identified, true) ∷ [])).asked ≡ 1)
after_asks-count_example = after_asks-count (10 ∷ 20 ∷ 30 ∷ []) ((identified, true) ∷ []) 20

no_row : route_download_target none ≡ ok v1_legacy
unfolding route_download_target
no_row = refl

public_row : route_download_target (some row) ≡ ok v2_public
unfolding route_download_target
public_row = refl

abbrev view : V2AssignmentView
view = record {
  snapshot = 5 ∷ [];
  r = 3;
  distinct_assigned = 5 ∷ [];
  per_chunk_assigned = (0, 5 ∷ []) ∷ [];
}

built : build_v2_assignment_view external chain (ok 3) row leaf_one (0 ∷ []) ≡ ok view
unfolding build_v2_assignment_view view_of assign_all insert_all parse_addresses
    filter_active_archives is_active_archive l1_address_from_base58 from_be_bytes
    presorted_addresses sort insert_sorted dedup assigned_archives insert remove
built = refl

build_v2_assignment_view-Routes_example : Routes external leaf_one (0 ∷ []) view
build_v2_assignment_view-Routes_example =
    build_v2_assignment_view-Routes external leaf_one chain (ok 3) row (0 ∷ []) view built
