-- ===== src/TxWait/Examples.antt =====
-- A transaction that is pending, then included, then final.
use storage_node_interface_p.Prelude.{ℕ, zero, suc, ◌≡◌, ◌<◌, ◌+◌, refl, some, Result, ok, arith}
use storage_node_interface_p.Text.{Text}
use storage_node_interface_p.TxWait.{
  TxStatusV2, pending, included, finalized, TxWaitError, settled, poll_loop, wait_for_finalized,
  default_poll_interval,
}
use storage_node_interface_p.TxWait.Ends.{
  EndsOn, KeepsPolling, wait_for_finalized-returns, wait_for_finalized-EndsOn,
}

abbrev answers : ℕ → Result Text TxStatusV2
answers zero = ok pending
answers (suc zero) = ok (included 40)
answers (suc (suc n)) = ok (finalized 40)

-- Each answer takes 10 ms.
abbrev arrives : ℕ → ℕ → ℕ
arrives n t = t + 10

final_at_40 : wait_for_finalized answers arrives 5 default_poll_interval 60_000 0 ≡ some (ok 40)
unfolding wait_for_finalized poll_loop settled
final_at_40 = refl

wait_for_finalized-returns_example :
    (r : Result TxWaitError ℕ) × (wait_for_finalized answers arrives 60_002 default_poll_interval
        60_000 0
      ≡ some r)
wait_for_finalized-returns_example =
    wait_for_finalized-returns answers arrives 60_002 default_poll_interval 60_000 0 (omega arith)
      (λ m t. omega arith) (omega arith)

wait_for_finalized-EndsOn_example :
    (last : ℕ) × EndsOn answers arrives default_poll_interval 60_000 0 last (ok 40)
    × ((m : ℕ) → m < last → KeepsPolling answers arrives default_poll_interval 60_000 0 m)
wait_for_finalized-EndsOn_example =
    wait_for_finalized-EndsOn answers arrives default_poll_interval 60_000 0 5 (ok 40) final_at_40
