-- ===== src/Audit/Examples.antt =====
-- An archive that holds the one chunk of the one file of its inventory.
use storage_node_interface_p.Prelude.{◌≡◌, ◌<◌, ◌↔◌, refl, true, some, none, [], ◌∷◌, ok}
use storage_node_interface_p.Prelude.Eq.{nat_eq, list_eq, contains}
use storage_node_interface_p.Text.{text, hex_root, hex_digit}
use storage_node_interface_p.Assignment.{from_be_bytes}
use storage_node_interface_p.Merkle.{Bytes}
use storage_node_interface_p.Merkle.Sample.{leaf_one}
use storage_node_interface_p.Verify.{verify_merkle_proof_bytes_for_tree, expected_proof_depth}
use storage_node_interface_p.Rendezvous.{
  presorted_addresses, sort, insert_sorted, dedup, assigned_archives,
}
use storage_node_interface_p.PushValidator.Ask.{
  is_abandoned, is_active_archive, filter_active_archives, l1_address_from_base58, root_text,
}
use storage_node_interface_p.PushValidator.Sample.{external, chain}
use storage_node_interface_p.Audit.{
  LocalStore, PorAnswer, answer_from_pushed_proof, build_answer, complete, is_error, is_not_usable,
  is_incomplete, verdict_of, exit_code, read_epoch, push_addresses, read_snapshot, audit_chunk,
  audit_chunks, audit_file, recheck_of, recheck_file, audit_roots, audit, pushed_proof,
}
use storage_node_interface_p.Audit.Files.{Answerable}
use storage_node_interface_p.Audit.Verdict.{audit-complete}
use storage_node_interface_p.Audit.Answers.{IsHeld, build_answer-IsHeld}

abbrev store : LocalStore
store = record {
  get_by_merkle_root = λ root. none;
  v2_pushed_proof = λ root c. some record { leaf = leaf_one; path = [] };
  v2_held_cid = λ root c. some (text "cid");
  get = λ cid. some (1 ∷ []);
}

abbrev empty_store : LocalStore
empty_store = record {
  get_by_merkle_root = λ root. none;
  v2_pushed_proof = λ root c. none;
  v2_held_cid = λ root c. none;
  get = λ cid. none;
}

held_is_complete :
    verdict_of (audit external store 3 5 chain chain (leaf_one ∷ leaf_one ∷ [])) ≡ complete
unfolding verdict_of audit audit_roots recheck_file recheck_of audit_file audit_chunks audit_chunk
    build_answer answer_from_pushed_proof read_epoch read_snapshot push_addresses
    filter_active_archives is_active_archive l1_address_from_base58 root_text hex_root hex_digit
    from_be_bytes presorted_addresses sort insert_sorted dedup assigned_archives is_abandoned
    is_error is_incomplete is_not_usable verify_merkle_proof_bytes_for_tree expected_proof_depth
held_is_complete = refl

lost_is_incomplete :
    exit_code (verdict_of (audit external empty_store 3 5 chain chain (leaf_one ∷ []))) ≡ 3
unfolding exit_code verdict_of audit audit_roots recheck_file recheck_of audit_file audit_chunks
    audit_chunk build_answer answer_from_pushed_proof read_epoch read_snapshot push_addresses
    filter_active_archives is_active_archive l1_address_from_base58 root_text hex_root hex_digit
    from_be_bytes presorted_addresses sort insert_sorted dedup assigned_archives is_abandoned
    is_error is_incomplete is_not_usable
lost_is_incomplete = refl

audit-complete_example :
    (verdict_of (audit external store 3 5 chain chain (leaf_one ∷ leaf_one ∷ [])) ≡ complete) ↔ (
      (0 < 2)
      × ((root : Bytes)
          → contains (leaf_one ∷ leaf_one ∷ []) root ≡ true
          → Answerable external store 3 5 chain chain root))
audit-complete_example = audit-complete external store 3 5 chain chain (leaf_one ∷ leaf_one ∷ [])

abbrev answer : PorAnswer
answer = record { chunk_hash = leaf_one; merkle_path = []; source = pushed_proof }

answered : build_answer external store leaf_one 0 ≡ ok answer
unfolding build_answer answer_from_pushed_proof
answered = refl

build_answer-IsHeld_example : IsHeld external store leaf_one 0 answer
build_answer-IsHeld_example = build_answer-IsHeld external store leaf_one 0 answer answered
