-- ===== src/Attestor.antt =====
-- crates/sum-node/src/assignment_attestor.rs: attesting the chunks that an archive is assigned and
-- holds, in one transaction for each batch.
-- The chain's node and the signing of a transaction are a parameter that answers for each nonce, so
-- it may answer every batch differently. `BTreeSet`s are ascending lists. The wait for a
-- transaction runs on fuel: `none` is fuel run out, or a panic. Nonces stay below 2^64. The text of
-- `BadParams` is left out.
pub mod Cuts
pub mod Batches
pub mod Runs
pub mod Returns
mod Examples
use storage_node_interface_p.Prelude.{
  ℕ, zero, suc, ◌+◌, Bool, true, false, Option, none, some, List, [], ◌∷◌, ◌++◌, length, get_last?,
  take, filter_by, if◌then◌else◌, nat_beq, Result, ok, err,
}
use storage_node_interface_p.Prelude.Eq.{contains, nat_eq}
use storage_node_interface_p.Text.{Text}
use storage_node_interface_p.Merkle.{Bytes}
use storage_node_interface_p.Rendezvous.{Wire, chunks_for_archive_v2}
use storage_node_interface_p.TxWait.{TxStatusV2, TxWaitError, wait_for_finalized}

pub record AttestRequest : Type 0 where
  pub merkle_root : Bytes
  pub chunk_count : ℕ
  pub snapshot : List ℕ
  pub held : List ℕ
  pub starting_nonce : ℕ
  -- in milliseconds
  pub poll_interval : ℕ
  pub batch_timeout : ℕ

pub record BatchOutcome : Type 0 where
  pub chunk_indices : List ℕ
  pub nonce : ℕ
  pub tx_hash : Text
  pub finalized_at_height : ℕ

pub data AttestError : Type 0 where
  bad_params : AttestError
  -- nonce, chunk_indices, source
  submit : ℕ → List ℕ → Text → AttestError
  -- nonce, chunk_indices, tx_hash, source
  wait : ℕ → List ℕ → Text → TxWaitError → AttestError

pub record AttestSummary : Type 0 where
  pub batches : List BatchOutcome
  pub error : Option AttestError

unfoldable pub fully_attested : AttestSummary → Bool
fully_attested s = elim s.error [ none ↦ true | some e ↦ false ]

-- The `sum` of the batches' lengths.
unfoldable pub sum_lengths : List BatchOutcome → ℕ
sum_lengths [] = 0
sum_lengths (b ∷ bs) = length b.chunk_indices + sum_lengths bs

unfoldable pub attested_count : AttestSummary → ℕ
attested_count s = sum_lengths s.batches

unfoldable pub last_finalized_nonce : AttestSummary → Option ℕ
last_finalized_nonce s = elim (get_last? s.batches) [ none ↦ none | some b ↦ some b.nonce ]

-- The nonce of the failing batch.
unfoldable pub last_failed : Option AttestError → Option ℕ
last_failed none = none
last_failed (some bad_params) = none
last_failed (some (submit nonce chunk_indices source)) = some nonce
last_failed (some (wait nonce chunk_indices tx_hash source)) = some nonce

unfoldable pub last_nonce_attempted : AttestSummary → Option ℕ
last_nonce_attempted s = elim (last_failed s.error) [
  | none ↦ last_finalized_nonce s
  | some nonce ↦ some nonce
]

-- `params`, of which the code reads these two.
pub record V2Params : Type 0 where
  pub assignment_replication_factor : ℕ
  pub max_chunk_indices_per_tx : ℕ

-- The signer and the chain's node.
pub record AttestorRpc : Type 0 where
  -- `build_accept_assignment_v2_tx`, with the seed, the chain id and the fee of the attestor
  pub build_tx : ℕ → Bytes → List ℕ → Result Text Text
  -- the answer to a transaction of that nonce
  pub send_raw_transaction : ℕ → Text → Result Text Text
  -- the answer to the n-th poll of the wait for a nonce's transaction
  pub get_transaction_status : ℕ → Text → ℕ → Result Text TxStatusV2
  -- when an answer to a poll is there
  pub arrives : ℕ → ℕ → ℕ
  -- when the wait for a nonce's transaction starts
  pub sent_at : ℕ → ℕ

module _ {ℓ} {A : Type ℓ} where
  unfoldable pub drop : ℕ → List A → List A
  drop zero xs = xs
  drop (suc n) [] = []
  drop (suc n) (x ∷ xs) = drop n xs

  -- At most `left` chunks of a slice.
  unfoldable pub chunks_up_to : ℕ → ℕ → List A → List (List A)
  chunks_up_to zero cap xs = []
  chunks_up_to (suc left) cap [] = []
  chunks_up_to (suc left) cap (x ∷ xs) =
      take cap (x ∷ xs) ∷ chunks_up_to left cap (drop cap (x ∷ xs))

  -- `slice::chunks`; `none` is its panic for a `cap` of zero.
  unfoldable pub chunks : ℕ → List A → Option (List (List A))
  chunks cap xs = if nat_beq cap 0 then none else some (chunks_up_to (length xs) cap xs)

-- `assigned.intersection(&held)`, in the order of `assigned`.
unfoldable pub intersection : List ℕ → List ℕ → List ℕ
intersection assigned held = filter_by (contains held) assigned

module _ (rpc : AttestorRpc) (fuel : ℕ) (req : AttestRequest) where
  -- One batch: the outcome, or how it failed.
  unfoldable pub run_batch : ℕ → List ℕ → Option (Result AttestError BatchOutcome)
  run_batch nonce chunk_indices = elim (rpc.build_tx nonce req.merkle_root chunk_indices) [
    | err e ↦ some (err (submit nonce chunk_indices e))
    | ok tx_hex ↦ elim (rpc.send_raw_transaction nonce tx_hex) [
      | err e ↦ some (err (submit nonce chunk_indices e))
      | ok tx_hash ↦
          elim (wait_for_finalized (rpc.get_transaction_status nonce tx_hash) rpc.arrives fuel
            req.poll_interval req.batch_timeout (rpc.sent_at nonce)) [
              | none ↦ none
              | some (err e) ↦ some (err (wait nonce chunk_indices tx_hash e))
              | some (ok height) ↦ some (
                  ok record {
                    chunk_indices = chunk_indices;
                    nonce = nonce;
                    tx_hash = tx_hash;
                    finalized_at_height = height;
                  })
            ]
    ]
  ]

  -- The loop, with the batches that are final and those to go.
  unfoldable pub run_batches : List BatchOutcome → ℕ → List (List ℕ) → Option AttestSummary
  run_batches batches nonce [] = some record { batches = batches; error = none }
  run_batches batches nonce (chunk_batch ∷ rest) = elim (run_batch nonce chunk_batch) [
    | none ↦ none
    | some (err e) ↦ some record { batches = batches; error = some e }
    | some (ok b) ↦ run_batches (batches ++ (b ∷ [])) (nonce + 1) rest
  ]

-- The chunks to attest.
unfoldable pub attest_set : Wire → V2Params → ℕ → AttestRequest → List ℕ
attest_set wire params my_addr req =
    intersection
      (chunks_for_archive_v2 wire req.merkle_root req.chunk_count req.snapshot
        params.assignment_replication_factor my_addr)
      req.held

unfoldable pub attest : Wire → AttestorRpc → ℕ → V2Params → ℕ → AttestRequest → Option AttestSummary
attest wire rpc fuel params my_addr req =
    let wanted = attest_set wire params my_addr req in
    if nat_beq params.max_chunk_indices_per_tx 0
    then some record { batches = []; error = some bad_params }
    else if nat_beq (length wanted) 0
    then some record { batches = []; error = none }
    else elim (chunks params.max_chunk_indices_per_tx wanted) [
      | none ↦ none
      | some plan ↦ run_batches rpc fuel req [] req.starting_nonce plan
    ]
