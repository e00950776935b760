-- ===== src/Inbound/Examples.antt =====
-- A chunk that is pushed to an empty archive, and pushed again.
use storage_node_interface_p.Prelude.{
  ◌≡◌, refl, true, false, not, ◌&&◌, none, some, List, [], ◌∷◌, ok,
}
use storage_node_interface_p.Prelude.Eq.{nat_eq, list_eq}
use storage_node_interface_p.Prelude.Assoc.{lookup, insert, remove}
use storage_node_interface_p.Text.{hex_root, hex_digit, strip_prefix}
use storage_node_interface_p.Assignment.{from_be_bytes}
use storage_node_interface_p.Rendezvous.{
  presorted_addresses, sort, insert_sorted, dedup, assigned_archives,
}
use storage_node_interface_p.Manifest.{parse_pairs, parse_pair, digit_value}
use storage_node_interface_p.Verify.{
  verify_merkle_proof_bytes_for_tree, expected_proof_depth, verify_merkle_proof, fold_path,
}
use storage_node_interface_p.PushValidator.{
  ValidatedPush, is_refusal, recheck, assigned_here, validate_push,
}
use storage_node_interface_p.PushValidator.History.{serve}
use storage_node_interface_p.PushValidator.Ask.{
  is_pending, is_active, is_abandoned, is_active_archive, filter_active_archives,
  l1_address_from_base58, decode_root_hex, root_text, ask_file_info, ask_epoch, decode_addresses,
  ask_snapshot,
}
use storage_node_interface_p.PushValidator.Sample.{external}
use storage_node_interface_p.PushValidator.OneEntry.{
  caches, caches-IsLrus, settings, first_push, second_push,
}
use storage_node_interface_p.PushValidator.Cached.{
  Caches, fetch_file_info, fetch_snapshot, young, assignment_epoch, judge, check_assigned,
}
use storage_node_interface_p.Index.{
  Disk, record_v2_held_chunk, append_gc_protected_line, record_v2_pushed_proof,
  pushed_proof_verifies, shift_right, append_sidecar_line, record_v2_held_index,
}
use storage_node_interface_p.Index.Table.{find, file}
use storage_node_interface_p.Inbound.Acknowledged.{IsOnRecord, accept_validated-none}
use storage_node_interface_p.Inbound.{
  Disks, Stores, Arrival, after_arrivals, accept_validated, accept_chunk_validated,
  store_v2_pushed_chunk, record_stored, record_chunk, record_held, held_for, is_private,
}
use storage_node_interface_p.Inbound.Backed.{IsBacked}
use storage_node_interface_p.Inbound.Runs.{
  empty_stores, empty_stores-IsBacked, after_arrivals-IsBacked,
}

abbrev works : Disk
works = record { opened = true; synced_dir = true; written = true }

abbrev all_work : Disks
all_work = record { exemption = works; put = true; mapping = works; proof = works; held = works }

abbrev arrivals : List Arrival
arrivals =
    record { push = second_push; disks = all_work; allow_private = true }
    ∷ record { push = first_push; disks = all_work; allow_private = true }
    ∷ []

abbrev start : Caches caches × Stores
start = (
  record {
    file_info = caches.infos.new;
    snapshot = caches.snapshots.new;
    epochs = caches.epochs.new;
  },
  empty_stores [] (some true) false,
)

after_arrivals-IsBacked_example :
    IsBacked external.blake3 external.hex_encode
      (after_arrivals external external.hex_encode caches settings arrivals start).1
after_arrivals-IsBacked_example =
    after_arrivals-IsBacked external external.hex_encode caches caches-IsLrus settings arrivals
      start (empty_stores-IsBacked external.blake3 external.hex_encode [] (some true) false)

abbrev arrival : Arrival
arrival = record { push = first_push; disks = all_work; allow_private = false }

acknowledged :
    (accept_validated external external.hex_encode caches settings arrival (start.0, start.1)).1
    ≡ none
unfolding accept_validated accept_chunk_validated store_v2_pushed_chunk record_stored record_chunk
    record_held held_for is_private record_v2_held_chunk append_gc_protected_line
    record_v2_pushed_proof pushed_proof_verifies shift_right verify_merkle_proof fold_path
    append_sidecar_line record_v2_held_index find file lookup insert remove serve validate_push
    assigned_here recheck is_refusal fetch_file_info fetch_snapshot young assignment_epoch judge
    check_assigned is_pending is_active is_abandoned is_active_archive filter_active_archives
    l1_address_from_base58 decode_root_hex root_text ask_file_info ask_epoch decode_addresses
    ask_snapshot hex_root hex_digit strip_prefix from_be_bytes presorted_addresses sort
    insert_sorted dedup assigned_archives parse_pairs parse_pair digit_value
    verify_merkle_proof_bytes_for_tree expected_proof_depth
acknowledged = refl

accept_validated-none_example :
    (v : ValidatedPush) × ((serve external caches settings start.0 first_push).1 ≡ ok v)
    × ((is_private v.visibility && not false) ≡ false)
    × IsOnRecord first_push.merkle_root first_push.chunk_index
        (external.hex_encode (external.blake3 first_push.payload))
        (accept_validated external external.hex_encode caches settings arrival
          (start.0, start.1)).0.1
accept_validated-none_example =
    accept_validated-none external external.hex_encode caches caches-IsLrus settings arrival start.0
      start.1 acknowledged
