-- ===== src/Attestor/Returns.antt =====
-- A run comes to an end, with the right summary.
use storage_node_interface_p.Prelude.{
  ℕ, ◌+◌, ◌≤◌, ◌<◌, ◌≡◌, ◌⊎◌, refl, none, some, List, [], ◌∷◌, ◌++◌, length, nat_beq, All, Result,
  ok, err, arith, Result-cases, Bool-cases, inl, inr,
}
use storage_node_interface_p.Prelude.Eq.{nat_eq}
use storage_node_interface_p.Rendezvous.{Wire}
use storage_node_interface_p.TxWait.Ends.{wait_for_finalized-returns}
use storage_node_interface_p.Attestor.{
  AttestRequest, BatchOutcome, AttestError, bad_params, submit, wait, AttestSummary, V2Params,
  AttestorRpc, run_batch, run_batches, attest_set, attest,
}
use storage_node_interface_p.Attestor.Cuts.{flat, FitsCap, chunks-cuts}
use storage_node_interface_p.Attestor.Batches.{RunsThrough}
use storage_node_interface_p.Attestor.Runs.{attest-RunsThrough, attest_uncapped}

module _ (wire : Wire) (rpc : AttestorRpc) (fuel : ℕ) (params : V2Params) (my_addr : ℕ)
    (req : AttestRequest) where
  -- The summary is right for the cap: of zero, that the parameters are bad and no batch was sent;
  -- above, of a run through batches that make up the chunks to attest.
  abbrev pub Concludes : AttestSummary → Type 0
  Concludes s =
      ((params.max_chunk_indices_per_tx ≡ 0)
        × (s ≡ record { batches = []; error = some bad_params }))
      ⊎ ((0 < params.max_chunk_indices_per_tx)
          × ((plan : List (List ℕ)) × (flat plan ≡ attest_set wire params my_addr req)
              × All (FitsCap params.max_chunk_indices_per_tx) plan
              × RunsThrough rpc req.merkle_root req.starting_nonce plan s))

  module _ (positive : 0 < req.poll_interval) (later : (n now : ℕ) → now ≤ rpc.arrives n now)
      (enough : req.batch_timeout + 1 < fuel) where
    run_batch-returns :
        (n : ℕ) (c : List ℕ)
        → (r : Result AttestError BatchOutcome) × (run_batch rpc fuel req n c ≡ some r)
    unfolding run_batch
    run_batch-returns n c = elim (Result-cases (rpc.build_tx n req.merkle_root c)) [
      | inr (e, b) ↦ (err (submit n c e), ground (arith, b))
      | inl (tx_hex, b) ↦ elim (Result-cases (rpc.send_raw_transaction n tx_hex)) [
        | inr (e, sent) ↦ (err (submit n c e), ground (arith, b, sent))
        | inl (hash, sent) ↦
            let (answer, w) =
              wait_for_finalized-returns (rpc.get_transaction_status n hash) rpc.arrives fuel
                req.poll_interval req.batch_timeout (rpc.sent_at n) positive later enough in
            elim (Result-cases answer) [
              | inr (e, a) ↦ (err (wait n c hash e), ground (arith, b, sent, w, a))
              | inl (height, a) ↦ (
                ok record {
                  chunk_indices = c;
                  nonce = n;
                  tx_hash = hash;
                  finalized_at_height = height;
                },
                ground (arith, b, sent, w, a),
              )
            ]
      ]
    ]

    run_batches-returns :
        (acc : List BatchOutcome) (n : ℕ) (todo : List (List ℕ))
        → (s : AttestSummary) × (run_batches rpc fuel req acc n todo ≡ some s)
    unfolding run_batches
    run_batches-returns acc n [] = (_, refl)
    run_batches-returns acc n (c ∷ todo) =
        let (r, e) = run_batch-returns n c in
        elim (Result-cases r) [
          | inr (x, failed) ↦ (record { batches = acc; error = some x }, ground (arith, e, failed))
          | inl (b, final) ↦
              let (s, rest) = run_batches-returns (acc ++ (b ∷ [])) (n + 1) todo in
              (s, ground (arith, e, final, rest))
        ]

    attest_total : (s : AttestSummary) × (attest wire rpc fuel params my_addr req ≡ some s)
    unfolding attest
    attest_total = elim (Bool-cases (nat_beq params.max_chunk_indices_per_tx 0)) [
      | inl z ↦ (record { batches = []; error = some bad_params }, ground (arith, z))
      | inr more ↦
          let wanted = attest_set wire params my_addr req in
          elim (Bool-cases (nat_beq (length wanted) 0)) [
            | inl idle ↦ (record { batches = []; error = none }, ground (arith, more, idle))
            | inr busy ↦
                let (plan, cut, whole, sizes) =
                  chunks-cuts params.max_chunk_indices_per_tx wanted (ground (arith, more)) in
                let (s, e) = run_batches-returns [] req.starting_nonce plan in
                (s, ground (arith, more, busy, cut, e))
          ]
    ]

    -- With a poll interval above zero, a clock that does not go back and fuel for the time limit,
    -- `attest` returns a summary, whatever the cap. With a cap of zero the summary has no batch and
    -- says that the parameters are bad. With any other it is of a run, from the starting nonce,
    -- through batches that are not empty, are within the cap and make up the chunks that are
    -- assigned to the archive and held: those it lists were polled final, and it ends without
    -- error, or with an error about the next batch under the next nonce.
    pub attest-returns :
        (s : AttestSummary) × (attest wire rpc fuel params my_addr req ≡ some s) × Concludes s
    attest-returns =
        let (s, e) = attest_total in
        elim (Bool-cases (nat_beq params.max_chunk_indices_per_tx 0)) [
          | inl z ↦
              let none_left : params.max_chunk_indices_per_tx ≡ 0 = ground (arith, z) in
              (
                s,
                e,
                inl (none_left, attest_uncapped wire rpc fuel params my_addr req s none_left e),
              )
          | inr more ↦
              let p : 0 < params.max_chunk_indices_per_tx = ground (arith, more) in
              (s, e, inr (p, attest-RunsThrough wire rpc fuel params my_addr req s p e))
        ]
