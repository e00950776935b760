-- ===== src/TxWait.antt =====
-- crates/sum-node/src/tx_wait.rs: waiting for a transaction to be final. The chain's node is a
-- parameter that answers the n-th poll, or fails; the clock reads `arrives` when that answer is
-- there. Times are in milliseconds. The loop runs on fuel.
pub mod Ends
mod Examples
use storage_node_interface_p.Prelude.{
  ℕ, zero, suc, ◌+◌, min, Bool, true, false, Option, none, some, leb, if◌then◌else◌, Result, ok,
  err, List,
}
use storage_node_interface_p.Text.{Text}

abbrev pub default_poll_interval : ℕ
default_poll_interval = 2_000

-- crates/sum-types/src/rpc_types.rs
pub data TxStatusV2 : Type 0 where
  unknown : TxStatusV2
  pending : TxStatusV2
  -- block_height
  included : ℕ → TxStatusV2
  finalized : ℕ → TxStatusV2
  -- block_height and reason
  failed : Option ℕ → Text → TxStatusV2
  dropped : TxStatusV2

pub data TxWaitError : Type 0 where
  tx_failed : Option ℕ → Text → TxWaitError
  tx_dropped : TxWaitError
  -- last_status
  timeout : TxStatusV2 → TxWaitError
  rpc : Text → TxWaitError

-- What the arm of `status` returns, or `none` for the arm that keeps polling.
unfoldable pub settled : TxStatusV2 → Option (Result TxWaitError ℕ)
settled (finalized block_height) = some (ok block_height)
settled (failed block_height reason) = some (err (tx_failed block_height reason))
settled dropped = some (err tx_dropped)
settled unknown = none
settled pending = none
settled (included h) = none

module _
    -- the answer to the n-th poll
    (get_transaction_status : ℕ → Result Text TxStatusV2)
    -- the time of that answer, when the poll is sent at the time given
    (arrives : ℕ → ℕ → ℕ) where
  -- From the n-th poll on, sent at `now`; `none` is fuel run out.
  unfoldable pub poll_loop : ℕ → ℕ → ℕ → ℕ → ℕ → Option (Result TxWaitError ℕ)
  poll_loop zero poll_interval deadline n now = none
  poll_loop (suc fuel) poll_interval deadline n now =
      let seen = arrives n now in
      let later =
        poll_loop fuel poll_interval deadline (n + 1) (min (seen + poll_interval) deadline) in
      elim (get_transaction_status n) [
        | err e ↦ some (err (rpc e))
        | ok status ↦ elim (settled status) [
          | some answer ↦ some answer
          | none ↦ if leb deadline seen then some (err (timeout status)) else later
        ]
      ]

  unfoldable pub wait_for_finalized : ℕ → ℕ → ℕ → ℕ → Option (Result TxWaitError ℕ)
  wait_for_finalized fuel poll_interval time_limit start =
      poll_loop fuel poll_interval (start + time_limit) 0 start
