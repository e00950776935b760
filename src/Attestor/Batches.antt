-- ===== src/Attestor/Batches.antt =====
-- How the loop goes through its batches.
use storage_node_interface_p.Prelude.{
  ℕ, zero, suc, ◌+◌, ◌≡◌, refl, sym, ap, ap₂, ◌∙◌, Option, none, some, List, [], ◌∷◌, ◌++◌, map,
  length, All, range_from, Result, ok, err, arith, Result-cases, Option-cases, inl, inr, some_eq,
  subst, All-append,
}
use storage_node_interface_p.Text.{Text}
use storage_node_interface_p.Merkle.{Bytes}
use storage_node_interface_p.TxWait.{finalized, wait_for_finalized}
use storage_node_interface_p.TxWait.Ends.{wait_for_finalized-EndsOn}
use storage_node_interface_p.Attestor.{
  AttestRequest, BatchOutcome, AttestError, bad_params, submit, wait, AttestSummary, AttestorRpc,
  run_batch, run_batches,
}

module _ {ℓ} {A : Type ℓ} where
  append_assoc : (xs ys zs : List A) → (xs ++ ys) ++ zs ≡ xs ++ (ys ++ zs)
  append_assoc [] ys zs = refl
  append_assoc (x ∷ xs) ys zs = ap (λ (t : List A). x ∷ t) (append_assoc xs ys zs)

-- How a run ends that has its next nonce and its remaining batches: without error when none
-- remain, else with an error about the first of them, under that nonce.
abbrev pub Stopped : ℕ → List (List ℕ) → Option AttestError → Type 0
Stopped n [] none = Unit {0}
Stopped n (b ∷ rest) (some (submit nonce chunk_indices e)) = (nonce ≡ n) × (chunk_indices ≡ b)
Stopped n (b ∷ rest) (some (wait nonce chunk_indices tx_hash e)) = (nonce ≡ n) × (chunk_indices ≡ b)
Stopped n _ _ = ⊥

abbrev pub batch_chunks : BatchOutcome → List ℕ
batch_chunks b = b.chunk_indices

abbrev pub batch_nonce : BatchOutcome → ℕ
batch_nonce b = b.nonce

abbrev pub sent_chunks : AttestSummary → List (List ℕ)
sent_chunks s = map batch_chunks s.batches

-- A transaction for the batch's chunks was built and sent under its nonce, and some poll of it was
-- answered with finality at the batch's height.
abbrev pub IsFinal : AttestorRpc → Bytes → BatchOutcome → Type 0
IsFinal rpc root b =
    (tx_hex : Text) × (n : ℕ) × (rpc.build_tx b.nonce root b.chunk_indices ≡ ok tx_hex)
    × (rpc.send_raw_transaction b.nonce tx_hex ≡ ok b.tx_hash)
    × (rpc.get_transaction_status b.nonce b.tx_hash n ≡ ok (finalized b.finalized_at_height))

-- The summary is of a run through these batches, in order, a nonce for each, each final.
abbrev pub RunsThrough : AttestorRpc → Bytes → ℕ → List (List ℕ) → AttestSummary → Type 0
RunsThrough rpc root start plan s =
    (rest : List (List ℕ)) × (sent_chunks s ++ rest ≡ plan)
    × (map batch_nonce s.batches ≡ range_from start (length s.batches))
    × All (IsFinal rpc root) s.batches
    × Stopped (start + length s.batches) rest s.error

map-snoc {ℓ κ} :
    {A : Type ℓ} {B : Type κ} (f : A → B) (xs : List A) (a : A)
    → map f (xs ++ (a ∷ [])) ≡ map f xs ++ (f a ∷ [])
map-snoc f [] a = refl
map-snoc f (x ∷ xs) a = ap (λ t. f x ∷ t) (map-snoc f xs a)

length-snoc {ℓ} : {A : Type ℓ} (xs : List A) (a : A) → length (xs ++ (a ∷ [])) ≡ suc (length xs)
length-snoc [] a = refl
length-snoc (x ∷ xs) a = ap suc (length-snoc xs a)

range_from-snoc : (i n : ℕ) → range_from i (suc n) ≡ range_from i n ++ ((i + n) ∷ [])
range_from-snoc i zero = ap (λ (k : ℕ). k ∷ []) (let here : i ≡ i + 0 = omega arith in here)
range_from-snoc i (suc n) =
    ap (λ t. i ∷ t) (range_from-snoc (i + 1) n)
    ∙ ap (λ (k : ℕ). i ∷ (range_from (i + 1) n ++ (k ∷ [])))
        (let there : i + 1 + n ≡ i + suc n = omega arith in there)

abbrev BatchEnds : AttestorRpc → Bytes → ℕ → List ℕ → Result AttestError BatchOutcome → Type 0
BatchEnds rpc root n c (ok b) = (b.nonce ≡ n) × (b.chunk_indices ≡ c) × IsFinal rpc root b
BatchEnds rpc root n c (err e) = Stopped n (c ∷ []) (some e)

longer_rest :
    (n : ℕ) (c : List ℕ) (rest : List (List ℕ)) (e : AttestError)
    → Stopped n (c ∷ []) (some e)
    → Stopped n (c ∷ rest) (some e)
longer_rest n c rest bad_params h = h
longer_rest n c rest (submit nonce chunk_indices x) h = h
longer_rest n c rest (wait nonce chunk_indices hash x) h = h

module _ (rpc : AttestorRpc) (fuel : ℕ) (req : AttestRequest) where
  run_batch-BatchEnds :
      (n : ℕ) (c : List ℕ) (r : Result AttestError BatchOutcome)
      → run_batch rpc fuel req n c ≡ some r
      → BatchEnds rpc req.merkle_root n c r
  unfolding run_batch
  run_batch-BatchEnds n c r h = elim (Result-cases (rpc.build_tx n req.merkle_root c)) [
    | inr (e, b) ↦ subst Ends (ends (err (submit n c e)) (ground (arith, b))) (refl, refl)
    | inl (tx_hex, b) ↦ elim (Result-cases (rpc.send_raw_transaction n tx_hex)) [
      | inr (e, sent) ↦
          subst Ends (ends (err (submit n c e)) (ground (arith, b, sent))) (refl, refl)
      | inl (hash, sent) ↦
          elim (Option-cases (
            wait_for_finalized (rpc.get_transaction_status n hash) rpc.arrives fuel
              req.poll_interval req.batch_timeout (rpc.sent_at n))) [
                | inl w ↦ absurd (ground (arith, b, sent, w))
                | inr (answer, w) ↦ elim (Result-cases answer) [
                  | inr (e, a) ↦
                      subst Ends (ends (err (wait n c hash e)) (ground (arith, b, sent, w, a)))
                        (refl, refl)
                  | inl (height, a) ↦
                      let (last, fin, before) =
                        wait_for_finalized-EndsOn (rpc.get_transaction_status n hash) rpc.arrives
                          req.poll_interval req.batch_timeout (rpc.sent_at n) fuel (ok height)
                          (w ∙ ap some a) in
                      subst Ends (ends (ok (final hash height)) (ground (arith, b, sent, w, a)))
                        (refl, refl, (tx_hex, last, b, sent, fin))
                ]
              ]
    ]
  ]
    where
      Ends : Result AttestError BatchOutcome → Type 0
      Ends = BatchEnds rpc req.merkle_root n c

      ends : (q : Result AttestError BatchOutcome) → run_batch rpc fuel req n c ≡ some q → q ≡ r
      ends q e = some_eq (sym e ∙ h)

      final : Text → ℕ → BatchOutcome
      final hash height = record {
        chunk_indices = c;
        nonce = n;
        tx_hash = hash;
        finalized_at_height = height;
      }

  -- From a state in which the batches of `acc` are final.
  pub run_batches-RunsThrough :
      (start : ℕ) (acc : List BatchOutcome) (todo : List (List ℕ)) (s : AttestSummary)
      → map batch_nonce acc ≡ range_from start (length acc)
      → All (IsFinal rpc req.merkle_root) acc
      → run_batches rpc fuel req acc (start + length acc) todo ≡ some s
      → RunsThrough rpc req.merkle_root start (map batch_chunks acc ++ todo) s
  unfolding run_batches
  run_batches-RunsThrough start acc [] s count done h =
      subst (RunsThrough rpc req.merkle_root start (map batch_chunks acc ++ [])) (some_eq h)
        ([], refl, count, done, tt)
  run_batches-RunsThrough start acc (c ∷ todo) s count done h =
      elim (Option-cases (run_batch rpc fuel req (start + length acc) c)) [
        | inl e ↦ absurd (ground (arith, e))
        | inr (err x, e) ↦
            let stop : BatchEnds rpc req.merkle_root (start + length acc) c (err x) =
              run_batch-BatchEnds (start + length acc) c (err x) e in
            let here : some (record { batches = acc; error = some x }) ≡ some s =
              ground (arith, e) in
            subst (RunsThrough rpc req.merkle_root start (map batch_chunks acc ++ (c ∷ todo)))
              (some_eq here)
              (c ∷ todo, refl, count, done, longer_rest (start + length acc) c todo x stop)
        | inr (ok b, e) ↦
            let (fresh, same, final) = run_batch-BatchEnds (start + length acc) c (ok b) e in
            let next : run_batches rpc fuel req (acc ++ (b ∷ [])) (start + length acc + 1) todo
                ≡ some s =
              ground (arith, e) in
            let place : start + length (acc ++ (b ∷ [])) ≡ start + length acc + 1 =
              omega (arith, length-snoc acc b) in
            let later =
              run_batches-RunsThrough start (acc ++ (b ∷ [])) todo s
                (map-snoc batch_nonce acc b
                  ∙ ap₂ (λ t (k : ℕ). t ++ (k ∷ [])) count fresh
                  ∙ sym (range_from-snoc start (length acc))
                  ∙ ap (range_from start) (sym (length-snoc acc b)))
                (All-append (IsFinal rpc req.merkle_root) acc (b ∷ []) done (final, tt))
                (ap (λ k. run_batches rpc fuel req (acc ++ (b ∷ [])) k todo) place ∙ next) in
            subst (λ plan. RunsThrough rpc req.merkle_root start plan s)
              (ap (λ t. t ++ todo) (map-snoc batch_chunks acc b)
                ∙ append_assoc (map batch_chunks acc) (b.chunk_indices ∷ []) todo
                ∙ ap (λ k. map batch_chunks acc ++ (k ∷ todo)) same)
              later
      ]
