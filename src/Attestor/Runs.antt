-- ===== src/Attestor/Runs.antt =====
-- What a run attests.
use storage_node_interface_p.Prelude.{
  ℕ, ◌+◌, ◌<◌, ◌≡◌, refl, sym, ap, subst, ◌∙◌, Bool, true, false, ◌&&◌, ◌||◌, none, some, List, [],
  ◌∷◌, ◌++◌, map, length, ltb, nat_beq, All, arith, Option-cases, Bool-cases, inl, inr, some_eq,
  length-append,
}
use storage_node_interface_p.Prelude.Eq.{contains, nat_eq}
use storage_node_interface_p.Merkle.{Bytes}
use storage_node_interface_p.Rendezvous.{Wire, IsLawful, assigned_archives, chunks_for_archive_v2}
use storage_node_interface_p.Rendezvous.Sets.{
  contains-filter_by, chunks_for_archive_v2-assigned_archives,
}
use storage_node_interface_p.Attestor.{
  AttestRequest, BatchOutcome, bad_params, AttestSummary, fully_attested, sum_lengths,
  attested_count, V2Params, AttestorRpc, intersection, run_batches, attest_set, attest,
}
use storage_node_interface_p.Attestor.Cuts.{flat, FitsCap, chunks-cuts, flat-nil}
use storage_node_interface_p.Attestor.Batches.{
  Stopped, batch_chunks, sent_chunks, RunsThrough, run_batches-RunsThrough,
}

contains-append :
    (xs ys : List ℕ) (c : ℕ) → contains (xs ++ ys) c ≡ (contains xs c || contains ys c)
contains-append [] ys c = refl
contains-append (x ∷ xs) ys c = ground (arith, contains-append xs ys c)

flat-append :
    (xss yss : List (List ℕ)) (c : ℕ)
    → contains (flat (xss ++ yss)) c ≡ (contains (flat xss) c || contains (flat yss) c)
flat-append [] yss c = refl
flat-append (xs ∷ xss) yss c = ground (
  arith,
  contains-append xs (flat (xss ++ yss)) c,
  contains-append xs (flat xss) c,
  flat-append xss yss c,
)

append-nil {ℓ} : {A : Type ℓ} (xs : List A) → xs ++ [] ≡ xs
append-nil [] = refl
append-nil (x ∷ xs) = ap (λ (t : List _). x ∷ t) (append-nil xs)

sum_lengths-flat : (bs : List BatchOutcome) → sum_lengths bs ≡ length (flat (map batch_chunks bs))
unfolding sum_lengths
sum_lengths-flat [] = refl
sum_lengths-flat (b ∷ bs) =
    omega (arith, sum_lengths-flat bs, length-append b.chunk_indices (flat (map batch_chunks bs)))

empty_of_length {ℓ} : {A : Type ℓ} (xs : List A) → length xs ≡ 0 → xs ≡ []
empty_of_length [] h = refl
empty_of_length (x ∷ xs) h = absurd (omega arith)

-- A run without error went through its whole plan.
whole_plan :
    (rpc : AttestorRpc) (root : Bytes) (start : ℕ) (plan : List (List ℕ)) (s : AttestSummary)
    → RunsThrough rpc root start plan s
    → s.error ≡ none
    → sent_chunks s ≡ plan
whole_plan rpc root start plan s ([], e, count, done, stop) clean =
    sym (append-nil (sent_chunks s)) ∙ e
whole_plan rpc root start plan s (b ∷ rest, e, count, done, stop) clean =
    absurd (subst (Stopped (start + length s.batches) (b ∷ rest)) clean stop)

module _ (wire : Wire) (rpc : AttestorRpc) (fuel : ℕ) (params : V2Params) (my_addr : ℕ)
    (req : AttestRequest) where
  -- Whether the chunk is assigned to this archive and held by it.
  abbrev pub is_due : ℕ → Bool
  is_due c =
      ltb c req.chunk_count
      && contains
          (assigned_archives wire req.merkle_root req.snapshot c
            params.assignment_replication_factor)
          my_addr
      && contains req.held c

  contains-attest_set :
      IsLawful wire → (c : ℕ) → contains (attest_set wire params my_addr req) c ≡ is_due c
  unfolding attest_set intersection
  contains-attest_set lawful c = ground (
    arith,
    contains-filter_by (contains req.held)
        (chunks_for_archive_v2 wire req.merkle_root req.chunk_count req.snapshot
          params.assignment_replication_factor my_addr)
        c,
    chunks_for_archive_v2-assigned_archives wire req.merkle_root lawful req.chunk_count req.snapshot
        params.assignment_replication_factor my_addr c,
  )

  -- With a cap above zero, a summary that `attest` returns is of a run through a plan: the plan's
  -- batches are not empty, are within the cap, and make up the chunks that are assigned to the
  -- archive and held; the summary's batches are the first of the plan, in order, with consecutive
  -- nonces from the starting nonce, and each was built and sent under its nonce and polled final
  -- at its height; and there is no error when they are the whole plan, else an error about the
  -- next batch under the next nonce.
  pub attest-RunsThrough :
      (s : AttestSummary)
      → 0 < params.max_chunk_indices_per_tx
      → attest wire rpc fuel params my_addr req ≡ some s
      → (plan : List (List ℕ)) × (flat plan ≡ attest_set wire params my_addr req)
        × All (FitsCap params.max_chunk_indices_per_tx) plan
        × RunsThrough rpc req.merkle_root req.starting_nonce plan s
  unfolding attest
  attest-RunsThrough s p h =
      let wanted = attest_set wire params my_addr req in
      let cap = params.max_chunk_indices_per_tx in
      let more : nat_beq cap 0 ≡ false = ground arith in
      let (plan, cut, whole, sizes) = chunks-cuts cap wanted p in
      (
        plan,
        whole,
        sizes,
        elim (Bool-cases (nat_beq (length wanted) 0)) [
          | inl idle ↦
              let here : some (record { batches = []; error = none }) ≡ some s =
                ground (arith, more, idle) in
              let nothing =
                flat-nil cap plan sizes (whole ∙ empty_of_length wanted (ground (arith, idle))) in
              subst (RunsThrough rpc req.merkle_root req.starting_nonce plan) (some_eq here) (
                plan,
                refl,
                refl,
                tt,
                subst (λ xs. Stopped (req.starting_nonce + 0) xs none) (sym nothing) tt,
              )
          | inr busy ↦
              let first : req.starting_nonce + 0 ≡ req.starting_nonce = omega arith in
              run_batches-RunsThrough rpc fuel req req.starting_nonce [] plan s refl tt (
                ap (λ k. run_batches rpc fuel req [] k plan) first
                ∙ ground (arith, more, busy, cut))
        ],
      )

  -- Without a cap nothing is sent.
  pub attest_uncapped :
      (s : AttestSummary)
      → params.max_chunk_indices_per_tx ≡ 0
      → attest wire rpc fuel params my_addr req ≡ some s
      → s ≡ record { batches = []; error = some bad_params }
  unfolding attest
  attest_uncapped s z h = some_eq (sym h ∙ ground arith)

  -- Only due chunks are in the batches, and in those of a run without error they all are.
  abbrev pub SendsDue : AttestSummary → Type 0
  SendsDue s =
      ((c : ℕ) → contains (flat (sent_chunks s)) c ≡ true → is_due c ≡ true)
      × (fully_attested s ≡ true
          → (attested_count s ≡ length (attest_set wire params my_addr req))
            × ((c : ℕ) → contains (flat (sent_chunks s)) c ≡ is_due c))

  clean_of_fully_attested : (s : AttestSummary) → fully_attested s ≡ true → s.error ≡ none
  unfolding fully_attested
  clean_of_fully_attested s full = elim (Option-cases s.error) [
    | inl clean ↦ clean
    | inr (e, failed) ↦ absurd (ground (arith, failed))
  ]

  -- Over a lawful wire crate, every chunk in a finalized batch of a summary is below the chunk
  -- count, assigned to this archive and held; and when the run is fully attested, the finalized
  -- batches hold every such chunk, and `attested_count` counts them.
  pub attest-SendsDue :
      (s : AttestSummary)
      → IsLawful wire
      → attest wire rpc fuel params my_addr req ≡ some s
      → SendsDue s
  unfolding fully_attested attested_count
  attest-SendsDue s lawful h = elim (Bool-cases (nat_beq params.max_chunk_indices_per_tx 0)) [
    | inl z ↦
        subst SendsDue (sym (attest_uncapped s (ground (arith, z)) h))
          (λ c e. absurd (cc), λ full. absurd (cc))
    | inr more ↦
        let (plan, whole, sizes, run) = attest-RunsThrough s (ground (arith, more)) h in
        let (rest, e, count, done, stop) = run in
        let due : (c : ℕ) → contains (flat plan) c ≡ is_due c =
          λ c. ap (λ t. contains t c) whole ∙ contains-attest_set lawful c in
        (
          λ c sent.
              ground
                (arith, ap (λ t. contains (flat t) c) e, due c, flat-append (sent_chunks s) rest c),
          λ full.
              let all =
                whole_plan rpc req.merkle_root req.starting_nonce plan s run
                  (clean_of_fully_attested s full) in
              (
                sum_lengths-flat s.batches
                    ∙ ap (λ t. length (flat t)) all
                    ∙ ap (λ (t : List ℕ). length t) whole,
                λ c. ap (λ t. contains (flat t) c) all ∙ due c,
              ),
        )
  ]
