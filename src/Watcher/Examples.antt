-- ===== src/Watcher/Examples.antt =====
-- A file whose epoch moved from 40 to 80, and the tick after.
use storage_node_interface_p.Prelude.{
  ◌≡◌, ◌≤◌, refl, ap, true, false, none, some, [], ◌∷◌, ok, err, arith,
}
use storage_node_interface_p.Prelude.Eq.{nat_eq, list_eq}
use storage_node_interface_p.Prelude.Assoc.{lookup, insert, remove}
use storage_node_interface_p.Merkle.Sample.{leaf_one}
use storage_node_interface_p.PushValidator.Ask.{is_abandoned}
use storage_node_interface_p.Rendezvous.{
  presorted_addresses, sort, insert_sorted, dedup, chunks_for_archive_v2,
}
use storage_node_interface_p.Rendezvous.Sample.{first_wire}
use storage_node_interface_p.TxWait.{finalized, settled, poll_loop, wait_for_finalized}
use storage_node_interface_p.Attestor.{
  AttestSummary, fully_attested, AttestorRpc, drop, chunks_up_to, chunks, intersection, run_batch,
  run_batches, attest_set, attest,
}
use storage_node_interface_p.Trigger.{
  AssignmentCoverageV2, resolved_latest_epoch, FileShape, AttestTriggerRpc, epoch_from_coverage,
  latest_assignment_epoch, Archive, attest_at, run_attestation,
}
use storage_node_interface_p.Watcher.{
  max_attempts_per_epoch, EpochState, World, EpochWatcher, entry_for, is_finished, ran,
  needs_no_run, already_attested, attested_for, check_epoch, count_checked, check_row, check,
  push_retry, visit_roots, tick,
}
use storage_node_interface_p.Watcher.Kept.{fresh, new, later, reports, Reach-Bounded}
use storage_node_interface_p.Watcher.Changes.{StaysAt, tick-settled}
use storage_node_interface_p.Watcher.Attests.{tick-attests}

abbrev archive : Archive
archive = record {
  wire = first_wire;
  params = record { assignment_replication_factor = 2; max_chunk_indices_per_tx = 2 };
  my_addr = 20;
  my_addr_base58 = [];
  poll_interval = 1_000;
  batch_timeout = 3;
  fuel = 5;
}

abbrev coverage : AssignmentCoverageV2
coverage = record { assignment_epochs = 40 ∷ 80 ∷ []; latest_assignment_epoch = 80; per_epoch = [] }

abbrev shape : FileShape
shape = record { chunk_count = 2; assignment_height = 40; visibility = 0; lifecycle = 1 }

abbrev answers : AttestTriggerRpc
answers = record {
  fetch_file_shape = λ root. ok shape;
  fetch_snapshot = λ height. ok (10 ∷ 20 ∷ []);
  fetch_nonce = λ address. ok 7;
  fetch_coverage = λ root. ok (some coverage);
}

abbrev final_rpc : AttestorRpc
final_rpc = record {
  build_tx = λ nonce root indices. ok [];
  send_raw_transaction = λ nonce tx. ok [];
  get_transaction_status = λ nonce hash n. ok (finalized 90);
  arrives = λ n t. t;
  sent_at = λ nonce. 0;
}

abbrev world : World
world = record {
  held_roots = leaf_one ∷ [];
  held_for = λ root. 0 ∷ [];
  asked = λ root. answers;
  running = λ root. answers;
  attestor_rpc = λ root. final_rpc;
}

abbrev at_40 : EpochState
at_40 = record { epoch = 40; done = true; attempts = 1 }

abbrev at_80 : EpochState
at_80 = record { epoch = 80; done = true; attempts = 1 }

abbrev watching : EpochState → EpochWatcher
watching st = record {
  state = (leaf_one, st) ∷ [];
  not_v2 = [];
  report = record { checked = 0; attested = []; retry = [] };
}

abbrev summary : AttestSummary
summary = record {
  batches =
      record { chunk_indices = 0 ∷ []; nonce = 7; tx_hash = []; finalized_at_height = 90 } ∷ [];
  error = none;
}

runs : run_attestation archive answers final_rpc leaf_one (0 ∷ []) ≡ some (some summary)
unfolding run_attestation attest_at latest_assignment_epoch epoch_from_coverage
    resolved_latest_epoch attest attest_set intersection chunks_for_archive_v2 presorted_addresses
    sort insert_sorted dedup chunks chunks_up_to drop run_batches run_batch wait_for_finalized
    poll_loop settled
runs = refl

tick-attests_example :
    (t : EpochWatcher) × (tick archive world (watching at_40) ≡ some t)
    × (lookup leaf_one t.state ≡ some at_80)
    × (reports leaf_one t ≡ true)
unfolding resolved_latest_epoch epoch_from_coverage is_abandoned fully_attested lookup
tick-attests_example =
    tick-attests archive world (omega arith, omega arith, λ root n now. omega arith) leaf_one at_40
      coverage 80 shape 80 summary (refl, refl, refl, refl, refl) refl refl runs refl
      (watching at_40) (refl, tt) refl refl refl

told_80 : StaysAt world leaf_one 80
unfolding resolved_latest_epoch epoch_from_coverage
told_80 c latest s told (row, l, f, live, e) =
    let here : s ≡ shape = ground (arith, f) in
    let there : c ≡ coverage = ground (arith, row) in
    ground (
      arith,
      ap (λ (k : AssignmentCoverageV2). epoch_from_coverage k s.assignment_height) there,
      ap (λ (k : FileShape). epoch_from_coverage coverage k.assignment_height) here,
      e,
    )

quiet_tick :
    tick archive world (watching at_80)
    ≡ some record {
      state = (leaf_one, at_80) ∷ [];
      not_v2 = [];
      report = record { checked = 1; attested = []; retry = [] };
    }
unfolding tick visit_roots check check_row check_epoch count_checked entry_for push_retry lookup
    resolved_latest_epoch epoch_from_coverage is_abandoned
quiet_tick = refl

tick-settled_example :
    (lookup leaf_one (watching at_80).state ≡ some at_80)
    × (reports leaf_one (record {
      state = (leaf_one, at_80) ∷ [];
      not_v2 = [];
      report = record { checked = 1; attested = []; retry = [] };
    })
        ≡ false)
unfolding lookup
tick-settled_example =
    tick-settled archive world leaf_one at_80 (watching at_80) _ refl told_80 refl quiet_tick

abbrev failing : AttestorRpc
failing = record {
  build_tx = λ nonce root indices. ok [];
  send_raw_transaction = λ nonce tx. err [];
  get_transaction_status = λ nonce hash n. ok (finalized 90);
  arrives = λ n t. t;
  sent_at = λ nonce. 0;
}

abbrev failing_world : World
failing_world = record {
  held_roots = leaf_one ∷ [];
  held_for = λ root. 0 ∷ [];
  asked = λ root. answers;
  running = λ root. answers;
  attestor_rpc = λ root. failing;
}

abbrev tried : EpochState
tried = record { epoch = 80; done = false; attempts = 1 }

-- The first run of a file whose attestation the chain does not have.
abbrev after_failure : EpochWatcher
after_failure = record {
  state = (leaf_one, tried) ∷ [];
  not_v2 = [];
  report = record { checked = 1; attested = []; retry = leaf_one ∷ [] };
}

failed_tick : tick archive failing_world fresh ≡ some after_failure
unfolding tick visit_roots check check_row check_epoch count_checked entry_for needs_no_run
    already_attested attested_for ran is_finished fully_attested push_retry lookup insert remove
    resolved_latest_epoch epoch_from_coverage is_abandoned run_attestation attest_at
    latest_assignment_epoch attest attest_set intersection chunks_for_archive_v2 presorted_addresses
    sort insert_sorted dedup chunks chunks_up_to drop run_batches run_batch
failed_tick = refl

Reach-Bounded_example : tried.attempts ≤ max_attempts_per_epoch
unfolding lookup
Reach-Bounded_example =
    Reach-Bounded archive after_failure (later failing_world new failed_tick) leaf_one tried refl
