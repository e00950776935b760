-- ===== src/Attestor/Examples.antt =====
-- A run of two batches, of which the second is refused by the node.
use storage_node_interface_p.Prelude.{
  ℕ, zero, suc, ◌≡◌, ◌+◌, refl, some, List, [], ◌∷◌, All, Result, ok, err, arith, if◌then◌else◌,
  nat_beq,
}
use storage_node_interface_p.Prelude.Eq.{nat_eq}
use storage_node_interface_p.Text.{Text, text}
use storage_node_interface_p.Merkle.Sample.{leaf_one}
use storage_node_interface_p.Rendezvous.{
  presorted_addresses, sort, insert_sorted, dedup, chunks_for_archive_v2,
}
use storage_node_interface_p.Rendezvous.Sample.{first_wire, first_wire-IsLawful}
use storage_node_interface_p.TxWait.{
  TxStatusV2, pending, finalized, settled, poll_loop, wait_for_finalized,
}
use storage_node_interface_p.Attestor.{
  AttestRequest, AttestSummary, submit, V2Params, AttestorRpc, drop, chunks_up_to, chunks,
  intersection, run_batch, run_batches, attest_set, attest, last_failed, last_finalized_nonce,
  last_nonce_attempted,
}
use storage_node_interface_p.Attestor.Cuts.{flat, FitsCap}
use storage_node_interface_p.Attestor.Batches.{RunsThrough}
use storage_node_interface_p.Attestor.Runs.{attest-RunsThrough, SendsDue, attest-SendsDue}
use storage_node_interface_p.Attestor.Returns.{Concludes, attest-returns}

abbrev req : AttestRequest
req = record {
  merkle_root = leaf_one;
  chunk_count = 5;
  snapshot = 30 ∷ 10 ∷ 20 ∷ [];
  held = 0 ∷ 1 ∷ 3 ∷ 9 ∷ [];
  starting_nonce = 7;
  poll_interval = 1_000;
  batch_timeout = 5_000;
}

abbrev params : V2Params
params = record { assignment_replication_factor = 2; max_chunk_indices_per_tx = 2 }

abbrev statuses : ℕ → Text → ℕ → Result Text TxStatusV2
statuses nonce hash zero = ok pending
statuses nonce hash (suc n) = ok (finalized 40)

-- The second transaction is refused.
abbrev rpc : AttestorRpc
rpc = record {
  build_tx = λ nonce root indices. ok (nonce ∷ []);
  send_raw_transaction =
      λ nonce tx. if nat_beq nonce 8 then err (text "nonce") else ok (text "hash");
  get_transaction_status = statuses;
  arrives = λ n t. t + 10;
  sent_at = λ nonce. 0;
}

abbrev summary : AttestSummary
summary = record {
  batches =
      record {
        chunk_indices = 0 ∷ 1 ∷ [];
        nonce = 7;
        tx_hash = text "hash";
        finalized_at_height = 40;
      }
      ∷ [];
  error = some (submit 8 (3 ∷ []) (text "nonce"));
}

attest_stops : attest first_wire rpc 5 params 20 req ≡ some summary
unfolding attest attest_set intersection chunks_for_archive_v2 presorted_addresses sort
    insert_sorted dedup chunks chunks_up_to drop run_batches run_batch wait_for_finalized poll_loop
    settled
attest_stops = refl

-- The failing nonce is the last that was tried.
attempted_8 : last_nonce_attempted summary ≡ some 8
unfolding last_nonce_attempted last_failed
attempted_8 = refl

finalized_7 : last_finalized_nonce summary ≡ some 7
unfolding last_finalized_nonce
finalized_7 = refl

attest-RunsThrough_example :
    (plan : List (List ℕ)) × (flat plan ≡ attest_set first_wire params 20 req)
    × All (FitsCap 2) plan
    × RunsThrough rpc leaf_one 7 plan summary
attest-RunsThrough_example =
    attest-RunsThrough first_wire rpc 5 params 20 req summary (omega arith) attest_stops

attest-SendsDue_example : SendsDue first_wire rpc 5 params 20 req summary
attest-SendsDue_example =
    attest-SendsDue first_wire rpc 5 params 20 req summary first_wire-IsLawful attest_stops

attest-returns_example :
    (s : AttestSummary) × (attest first_wire rpc 5_002 params 20 req ≡ some s)
    × Concludes first_wire rpc 5_002 params 20 req s
attest-returns_example =
    attest-returns first_wire rpc 5_002 params 20 req (omega arith) (λ n now. omega arith)
      (omega arith)
