-- ===== src/PushValidator/Examples.antt =====
-- One chunk pushed to an archive, over caches that keep one entry.
use storage_node_interface_p.Prelude.{◌≡◌, refl, [], ◌∷◌, ok}
use storage_node_interface_p.Prelude.Eq.{nat_eq, list_eq}
use storage_node_interface_p.Merkle.Sample.{leaf_one}
use storage_node_interface_p.Text.{hex_root, hex_digit, strip_prefix}
use storage_node_interface_p.Assignment.{from_be_bytes}
use storage_node_interface_p.Rendezvous.{
  presorted_addresses, sort, insert_sorted, dedup, assigned_archives,
}
use storage_node_interface_p.Manifest.{parse_pairs, parse_pair, digit_value}
use storage_node_interface_p.Verify.{verify_merkle_proof_bytes_for_tree, expected_proof_depth}
use storage_node_interface_p.PushValidator.{
  ValidatedPush, is_refusal, recheck, assigned_here, validate_push,
}
use storage_node_interface_p.PushValidator.Ask.{
  is_pending, is_active, is_abandoned, is_active_archive, filter_active_archives,
  l1_address_from_base58, decode_root_hex, root_text, ask_file_info, ask_epoch, decode_addresses,
  ask_snapshot,
}
use storage_node_interface_p.PushValidator.Cached.{
  fetch_file_info, fetch_snapshot, young, assignment_epoch, judge, check_assigned,
}
use storage_node_interface_p.PushValidator.Sample.{external}
use storage_node_interface_p.PushValidator.OneEntry.{
  caches, caches-IsLrus, settings, first_push, second_push,
}
use storage_node_interface_p.PushValidator.Sound.{Passed}
use storage_node_interface_p.PushValidator.History.{serve, caches_after, Heard, serve-Passed}

abbrev accepted : ValidatedPush
accepted = record { leaf_hash = leaf_one; visibility = 0 }

accepts_second :
    (serve external caches settings
      (caches_after external caches settings (first_push ∷ []))
      second_push).1
    ≡ ok accepted
unfolding serve caches_after validate_push assigned_here recheck is_refusal fetch_file_info
    fetch_snapshot young assignment_epoch judge check_assigned is_pending is_active is_abandoned
    is_active_archive filter_active_archives l1_address_from_base58 decode_root_hex root_text
    ask_file_info ask_epoch decode_addresses ask_snapshot hex_root hex_digit strip_prefix
    from_be_bytes presorted_addresses sort insert_sorted dedup assigned_archives parse_pairs
    parse_pair digit_value verify_merkle_proof_bytes_for_tree expected_proof_depth
accepts_second = refl

serve-Passed_example :
    Passed external
      (Heard external (second_push ∷ first_push ∷ []))
      settings
      second_push.now
      second_push.merkle_root
      second_push.chunk_index
      second_push.payload
      second_push.merkle_path
      accepted
serve-Passed_example =
    serve-Passed external caches caches-IsLrus settings (first_push ∷ []) second_push accepted
      accepts_second
