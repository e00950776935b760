-- ===== src/TxWait/Ends.antt =====
-- The wait comes to an end, and what its answers mean.
use storage_node_interface_p.Prelude.{
  ℕ, zero, suc, ◌+◌, ◌-◌, ◌≤◌, ◌<◌, ◌≡◌, min, ap, subst, nat_beq, nat_beq_iff, ◌∙◌, none, some, leb,
  Result, ok, err, arith, Result-cases, Option-cases, Bool-cases, inl, inr, some_eq,
}
use storage_node_interface_p.Text.{Text}
use storage_node_interface_p.TxWait.{
  TxStatusV2, unknown, pending, included, finalized, failed, dropped, TxWaitError, tx_failed,
  tx_dropped, rpc, timeout, settled, poll_loop, wait_for_finalized,
}

module _ (get_transaction_status : ℕ → Result Text TxStatusV2) (arrives : ℕ → ℕ → ℕ) where
  poll_loop-ends :
      (fuel poll_interval deadline n now : ℕ)
      → 0 < poll_interval
      → ((m t : ℕ) → t ≤ arrives m t)
      → 0 < fuel
      → (deadline - now) + 1 < fuel
      → (r : Result TxWaitError ℕ) × (poll_loop get_transaction_status arrives fuel poll_interval
            deadline n now
          ≡ some r)
  unfolding poll_loop
  poll_loop-ends zero poll_interval deadline n now p later f k = absurd (omega arith)
  poll_loop-ends (suc fuel) poll_interval deadline n now p later f k =
      let seen = arrives n now in
      let next = min (seen + poll_interval) deadline in
      let after = later n now in
      elim (Result-cases (get_transaction_status n)) [
        | inr (e, h) ↦ (err (rpc e), ground (arith, h))
        | inl (status, h) ↦ elim (Option-cases (settled status)) [
          | inr (answer, s) ↦ (answer, ground (arith, h, s))
          | inl s ↦ elim (Bool-cases (leb deadline seen)) [
            | inl over ↦ (err (timeout status), ground (arith, h, s, over))
            | inr more ↦
                let lt : seen < deadline = ground (arith, more) in
                let (r, e) =
                  poll_loop-ends fuel poll_interval deadline (n + 1) next p later (omega arith)
                    (omega arith) in
                (r, ground (arith, h, s, more, e))
          ]
        ]
      ]

  -- With a poll interval above zero and answers that do not come before their polls are sent, the
  -- wait returns a result within as many polls as the time limit has milliseconds, and two.
  pub wait_for_finalized-returns :
      (fuel poll_interval time_limit start : ℕ)
      → 0 < poll_interval
      → ((m t : ℕ) → t ≤ arrives m t)
      → time_limit + 1 < fuel
      → (r : Result TxWaitError ℕ) × (wait_for_finalized get_transaction_status arrives fuel
            poll_interval time_limit start
          ≡ some r)
  unfolding wait_for_finalized
  wait_for_finalized-returns fuel poll_interval time_limit start p later k =
      poll_loop-ends fuel poll_interval (start + time_limit) 0 start p later (omega arith)
        (omega arith)

-- The chain may still decide on the transaction: it is not known, in the pool, or in a block that is
-- not final.
abbrev pub IsOpen : TxStatusV2 → Type 0
IsOpen unknown = Unit {0}
IsOpen pending = Unit {0}
IsOpen (included block_height) = Unit {0}
IsOpen (finalized block_height) = ⊥
IsOpen (failed block_height reason) = ⊥
IsOpen dropped = ⊥

settled-IsOpen : (status : TxStatusV2) → settled status ≡ none → IsOpen status
unfolding settled
settled-IsOpen unknown e = tt
settled-IsOpen pending e = tt
settled-IsOpen (included h) e = tt
settled-IsOpen (finalized h) e = cc
settled-IsOpen (failed h reason) e = cc
settled-IsOpen dropped e = cc

module _ (get_transaction_status : ℕ → Result Text TxStatusV2) (arrives : ℕ → ℕ → ℕ)
    (poll_interval time_limit start : ℕ) where
  -- When the n-th poll is sent: one interval after the answer to the one before, and at the
  -- deadline at the latest.
  abbrev pub sent : ℕ → ℕ
  sent zero = start
  sent (suc n) = min (arrives n (sent n) + poll_interval) (start + time_limit)

  -- The n-th poll was answered before the deadline, with a status that is open.
  abbrev pub KeepsPolling : ℕ → Type 0
  KeepsPolling n =
      (status : TxStatusV2) × (get_transaction_status n ≡ ok status)
      × IsOpen status
      × (arrives n (sent n) < start + time_limit)

  -- What the answer to the n-th poll was when the wait ended on it with this result.
  abbrev pub EndsOn : ℕ → Result TxWaitError ℕ → Type 0
  EndsOn n (ok height) = get_transaction_status n ≡ ok (finalized height)
  EndsOn n (err (tx_failed block_height reason)) =
      get_transaction_status n ≡ ok (failed block_height reason)
  EndsOn n (err tx_dropped) = get_transaction_status n ≡ ok dropped
  EndsOn n (err (rpc e)) = get_transaction_status n ≡ err e
  EndsOn n (err (timeout status)) =
      (get_transaction_status n ≡ ok status)
      × IsOpen status
      × (start + time_limit ≤ arrives n (sent n))

  settled-EndsOn :
      (n : ℕ) (status : TxStatusV2) (r : Result TxWaitError ℕ)
      → get_transaction_status n ≡ ok status
      → settled status ≡ some r
      → EndsOn n r
  unfolding settled
  settled-EndsOn n unknown r h e = absurd (cc)
  settled-EndsOn n pending r h e = absurd (cc)
  settled-EndsOn n (included a) r h e = absurd (cc)
  settled-EndsOn n (finalized a) r h e = subst (EndsOn n) (some_eq e) h
  settled-EndsOn n (failed a reason) r h e = subst (EndsOn n) (some_eq e) h
  settled-EndsOn n dropped r h e = subst (EndsOn n) (some_eq e) h

  -- From the n-th poll on.
  poll_loop-EndsOn :
      (fuel n : ℕ) (r : Result TxWaitError ℕ)
      → poll_loop get_transaction_status arrives fuel poll_interval (start + time_limit) n (sent n)
        ≡ some r
      → (last : ℕ) × (n ≤ last) × EndsOn last r × ((m : ℕ) → n ≤ m → m < last → KeepsPolling m)
  unfolding poll_loop
  poll_loop-EndsOn zero n r e = absurd (cc)
  poll_loop-EndsOn (suc fuel) n r e = elim (Result-cases (get_transaction_status n)) [
    | inr (x, h) ↦
        let same : err (rpc x) ≡ r = ground (arith, h) in
        (n, omega arith, subst (EndsOn n) same h, λ m a b. absurd (omega arith))
    | inl (status, h) ↦ elim (Option-cases (settled status)) [
      | inr (answer, s) ↦
          let same : answer ≡ r = ground (arith, h, s) in
          (
            n,
            omega arith,
            settled-EndsOn n status r h (s ∙ ap some same),
            λ m a b. absurd (omega arith),
          )
      | inl s ↦
          let open_status = settled-IsOpen status s in
          elim (Bool-cases (leb (start + time_limit) (arrives n (sent n)))) [
            | inl over ↦
                let same : err (timeout status) ≡ r = ground (arith, h, s, over) in
                (
                  n,
                  omega arith,
                  subst (EndsOn n) same (h, open_status, ground (arith, over)),
                  λ m a b. absurd (omega arith),
                )
            | inr more ↦
                let next = min (arrives n (sent n) + poll_interval) (start + time_limit) in
                let rest : poll_loop get_transaction_status arrives fuel poll_interval
                      (start + time_limit) (n + 1) next
                    ≡ some r =
                  ground (arith, h, s, more) in
                let step : n + 1 ≡ suc n = omega arith in
                let (last, le, fin, before) = poll_loop-EndsOn fuel (suc n) r (
                  subst
                    (λ k.
                      poll_loop get_transaction_status arrives fuel poll_interval
                        (start + time_limit) k next
                      ≡ some r)
                    step rest) in
                (
                  last,
                  omega arith,
                  fin,
                  λ m a b. elim (Bool-cases (nat_beq n m)) [
                    | inl same ↦
                        subst KeepsPolling ((nat_beq_iff n m).0 same)
                          (status, h, open_status, ground (arith, more))
                    | inr differs ↦ before m (ground (arith, differs)) b
                  ],
                )
          ]
    ]
  ]

  -- A wait that returns ended on a poll whose answer is its result: finality at the height that is
  -- returned, the failure, the drop or the failure of the call that is reported, or, for a timeout,
  -- a status that is unknown, pending or included and came at the deadline or later. Every poll
  -- before it was answered before the deadline, with a status that is unknown, pending or included.
  pub wait_for_finalized-EndsOn :
      (fuel : ℕ) (r : Result TxWaitError ℕ)
      → wait_for_finalized get_transaction_status arrives fuel poll_interval time_limit start
        ≡ some r
      → (last : ℕ) × EndsOn last r × ((m : ℕ) → m < last → KeepsPolling m)
  unfolding wait_for_finalized
  wait_for_finalized-EndsOn fuel r e =
      let (last, _, fin, before) = poll_loop-EndsOn fuel 0 r e in
      (last, fin, λ m b. before m (omega arith) b)
