-- ===== src/Watcher/Attests.antt =====
-- A tick comes to an end, and attests a file whose epoch changed.
use storage_node_interface_p.Prelude.{
  ℕ, ◌+◌, ◌≤◌, ◌<◌, ◌≡◌, refl, sym, ap, subst, ◌∙◌, Bool, true, false, Option, none, some, List, [],
  ◌∷◌, length, nat_beq, leb, Result, ok, err, Result-cases, Option-cases, Bool-cases, inl, inr,
  arith,
}
use storage_node_interface_p.Prelude.Eq.{
  ◌==◌, nat_eq, list_eq, contains, list_beq_iff, ==_refl, IsDistinct,
}
use storage_node_interface_p.Prelude.Assoc.{lookup, lookup-insert}
use storage_node_interface_p.Merkle.{Bytes}
use storage_node_interface_p.PushValidator.Ask.{is_abandoned}
use storage_node_interface_p.Attestor.{AttestSummary, fully_attested}
use storage_node_interface_p.Attestor.Returns.{attest-returns}
use storage_node_interface_p.Trigger.{
  AssignmentCoverageV2, resolved_latest_epoch, FileShape, TriggerError, latest_assignment_epoch,
  epoch_from_coverage, Archive, attest_at, run_attestation,
}
use storage_node_interface_p.Watcher.{
  max_attempts_per_epoch, EpochState, World, EpochWatcher, entry_for, put, ran, is_finished,
  needs_no_run, check_epoch, count_checked, check_row, check, push_retry, visit_roots, tick,
  call_failed,
}
use storage_node_interface_p.Watcher.Ticks.{check-Effect}
use storage_node_interface_p.Watcher.Changes.{Tells, Shows, other-Shows}
use storage_node_interface_p.Watcher.Kept.{reports, any_by-snoc, Effect-other}

-- Every wait of a run has fuel, an interval and a clock that does not go back.
abbrev pub Waits : Archive → World → Type 0
Waits a w =
    (0 < a.poll_interval)
    × (a.batch_timeout + 1 < a.fuel)
    × ((root : Bytes) (n now : ℕ) → now ≤ (w.attestor_rpc root).arrives n now)

module _ (a : Archive) (w : World) (waits : Waits a w) where
  run_attestation-returns :
      (root : Bytes) (held : List ℕ)
      → (o : Option AttestSummary) × (run_attestation a
            (w.running root)
            (w.attestor_rpc root)
            root
            held
          ≡ some o)
  unfolding run_attestation attest_at
  run_attestation-returns root held =
      let rpc = w.running root in
      elim (Bool-cases (nat_beq (length held) 0)) [
        | inl empty ↦ (none, ground (arith, empty))
        | inr some_held ↦ elim (Result-cases (rpc.fetch_file_shape root)) [
          | inr (x, f) ↦ (none, ground (arith, some_held, f))
          | inl (shape, f) ↦ elim (Result-cases (latest_assignment_epoch rpc root shape)) [
            | inr (x, l) ↦ (none, ground (arith, some_held, f, l))
            | inl (epoch, l) ↦ elim (Result-cases (rpc.fetch_snapshot epoch)) [
              | inr (x, c) ↦ (none, ground (arith, some_held, f, l, c))
              | inl (snapshot, c) ↦ elim (Result-cases (rpc.fetch_nonce a.my_addr_base58)) [
                | inr (x, n) ↦ (none, ground (arith, some_held, f, l, c, n))
                | inl (nonce, n) ↦
                    let (summary, e, _) =
                      attest-returns a.wire (w.attestor_rpc root) a.fuel a.params a.my_addr
                        record {
                          merkle_root = root;
                          chunk_count = shape.chunk_count;
                          snapshot = snapshot;
                          held = held;
                          starting_nonce = nonce;
                          poll_interval = a.poll_interval;
                          batch_timeout = a.batch_timeout;
                        }
                        waits.0 (waits.2 root) waits.1 in
                    (some summary, ground (arith, some_held, f, l, c, n, e))
              ]
            ]
          ]
        ]
      ]

  check_epoch-returns :
      (root : Bytes) (coverage : AssignmentCoverageV2) (shape : FileShape) (epoch : ℕ)
      (s : EpochWatcher)
      → (r : EpochWatcher × Result TriggerError (Unit {0})) × (check_epoch a w root coverage shape
            epoch s
          ≡ some r)
  unfolding check_epoch
  check_epoch-returns root coverage shape epoch s =
      let previous = lookup root s.state in
      let (o, out) = run_attestation-returns root (w.held_for root) in
      elim (Option-cases (entry_for previous epoch)) [
        | inl handled ↦ ((s, ok tt), ground (arith, handled))
        | inr (st, e) ↦ elim (Bool-cases (leb max_attempts_per_epoch st.attempts)) [
          | inl spent ↦ ((s, ok tt), ground (arith, e, spent))
          | inr left ↦ elim (Result-cases (needs_no_run a w root previous coverage shape epoch)) [
            | inr (x, n) ↦ ((s, err x), ground (arith, e, left, n))
            | inl (idle, n) ↦ elim (Bool-cases idle) [
              | inl nothing ↦ (
                (
                  put root record { epoch = st.epoch; done = true; attempts = st.attempts } s,
                  ok tt,
                ),
                ground (arith, e, left, n, nothing),
              )
              | inr run ↦ ((ran root st o s, ok tt), ground (arith, e, left, n, run, out))
            ]
          ]
        ]
      ]

  check_row-returns :
      (root : Bytes) (coverage : AssignmentCoverageV2) (s : EpochWatcher)
      → (r : EpochWatcher × Result TriggerError (Unit {0})) × (check_row a w root coverage s
          ≡ some r)
  unfolding check_row
  check_row-returns root coverage s = elim (Option-cases (resolved_latest_epoch coverage)) [
    | inl none_listed ↦ ((s, ok tt), ground (arith, none_listed))
    | inr (latest, l) ↦ elim (Result-cases ((w.asked root).fetch_file_shape root)) [
      | inr (x, f) ↦ ((s, err (call_failed x)), ground (arith, l, f))
      | inl (shape, f) ↦ elim (Bool-cases (is_abandoned shape.lifecycle)) [
        | inl gone ↦ ((s, ok tt), ground (arith, l, f, gone))
        | inr live ↦ elim (Result-cases (epoch_from_coverage coverage shape.assignment_height)) [
          | inr (x, e) ↦ ((s, err x), ground (arith, l, f, live, e))
          | inl (epoch, e) ↦
              let (r, out) = check_epoch-returns root coverage shape epoch s in
              (r, ground (arith, l, f, live, e, out))
        ]
      ]
    ]
  ]

  check-returns :
      (root : Bytes) (s : EpochWatcher)
      → (r : EpochWatcher × Result TriggerError (Unit {0})) × (check a w root s ≡ some r)
  unfolding check
  check-returns root s = elim (Result-cases ((w.asked root).fetch_coverage root)) [
    | inr (x, f) ↦ ((s, err (call_failed x)), ground (arith, f))
    | inl (found, f) ↦ elim (Option-cases found) [
      | inl no_row ↦ (
        (record { state = s.state; not_v2 = root ∷ s.not_v2; report = s.report }, ok tt),
        ground (arith, f, no_row),
      )
      | inr (coverage, row) ↦
          let (r, out) = check_row-returns root coverage (count_checked a s) in
          (r, ground (arith, f, row, out))
    ]
  ]

  -- The roots that are not this one leave what the watcher has on it.
  visit_others :
      (root : Bytes) (st : EpochState) (told : Bool) (roots : List Bytes) (s : EpochWatcher)
      → contains roots root ≡ false
      → Shows a w root st told s
      → (t : EpochWatcher) × (visit_roots a w roots s ≡ some t) × Shows a w root st told t
  unfolding visit_roots
  visit_others root st told [] s absent shown = (s, refl, shown)
  visit_others root st told (c ∷ roots) s absent shown = elim (Bool-cases (contains s.not_v2 c)) [
    | inl skip ↦
        let (t, e, after) = visit_others root st told roots s (ground (arith, absent)) shown in
        (t, ground (arith, skip, e), after)
    | inr visit ↦
        let (r, out) = check-returns c s in
        let (t, e, after) =
          visit_others root st told roots (push_retry a c r) (ground (arith, absent))
            (other-Shows a w root st told c s r (ground (arith, absent)) out shown) in
        (t, ground (arith, visit, out, e), after)
  ]

  module _ (root : Bytes) (old : EpochState) (coverage : AssignmentCoverageV2) (latest : ℕ)
      (shape : FileShape) (epoch : ℕ) (summary : AttestSummary)
      (tells : Tells w root coverage latest shape epoch) (changed : nat_beq old.epoch epoch ≡ false)
      (holds : nat_beq (length (w.held_for root)) 0 ≡ false)
      (runs : run_attestation a (w.running root) (w.attestor_rpc root) root (w.held_for root)
        ≡ some (some summary))
      (whole : fully_attested summary ≡ true) where
    abbrev first_try : EpochState
    first_try = record { epoch = epoch; done = false; attempts = 0 }

    abbrev pub attested_entry : EpochState
    attested_entry = record { epoch = epoch; done = true; attempts = 1 }

    check_row-ran :
        (s : EpochWatcher)
        → lookup root s.state ≡ some old
        → check_row a w root coverage s ≡ some (ran root first_try (some summary) s, ok tt)
    unfolding check_row check_epoch entry_for needs_no_run
    check_row-ran s found =
        ground (arith, tells.1, tells.2, tells.3, tells.4, found, changed, holds, runs)

    ran-Shows :
        (s : EpochWatcher)
        → Shows a w root attested_entry true (ran root first_try (some summary) s)
    unfolding ran is_finished
    ran-Shows s = (
      lookup-insert root root record { epoch = epoch; done = fully_attested summary; attempts = 1 }
            s.state
          ∙ ground (arith, ==_refl root, whole),
      ground (
        arith,
        whole,
        any_by-snoc (λ (q : Bytes × ℕ). q.0 == root) s.report.attested (root, epoch),
        ==_refl root,
      ),
    )

    check-attests :
        (s : EpochWatcher)
        → lookup root s.state ≡ some old
        → (r : EpochWatcher × Result TriggerError (Unit {0})) × (check a w root s ≡ some r)
          × Shows a w root attested_entry true (push_retry a root r)
    unfolding check count_checked push_retry
    check-attests s found =
        let e = check_row-ran (count_checked a s) found in
        (
          (ran root first_try (some summary) (count_checked a s), ok tt),
          ground (arith, tells.0, e),
          ran-Shows (count_checked a s),
        )

    visit_attests :
        (roots : List Bytes) (s : EpochWatcher)
        → IsDistinct roots
        → contains roots root ≡ true
        → contains s.not_v2 root ≡ false
        → Shows a w root old false s
        → (t : EpochWatcher) × (visit_roots a w roots s ≡ some t)
          × Shows a w root attested_entry true t
    unfolding visit_roots
    visit_attests [] s distinct member v2 shown = absurd (cc)
    visit_attests (c ∷ roots) s distinct member v2 shown = elim (Bool-cases (c == root)) [
      | inl same ↦
          let here : c ≡ root = (list_beq_iff c root).0 same in
          let (r, out, good) = check-attests s shown.0 in
          let out_here : check a w c s ≡ some r = ap (λ k. check a w k s) here ∙ out in
          let good_here : Shows a w root attested_entry true (push_retry a c r) =
            subst (λ k. Shows a w root attested_entry true (push_retry a k r)) (sym here) good in
          let absent : contains roots root ≡ false = ap (contains roots) (sym here) ∙ distinct.0 in
          let visit : contains s.not_v2 c ≡ false = ap (contains s.not_v2) here ∙ v2 in
          let (t, e, after) =
            visit_others root attested_entry true roots (push_retry a c r) absent good_here in
          (t, ground (arith, visit, out_here, e), after)
      | inr differs ↦ elim (Bool-cases (contains s.not_v2 c)) [
        | inl skip ↦
            let (t, e, after) =
              visit_attests roots s distinct.1 (ground (arith, member, differs)) v2 shown in
            (t, ground (arith, skip, e), after)
        | inr visit ↦
            let (r, out) = check-returns c s in
            let (kept, said, marked) =
              Effect-other root c s (push_retry a c r) differs (check-Effect a w c s r out) in
            let (t, e, after) =
              visit_attests roots (push_retry a c r) distinct.1 (ground (arith, member, differs))
                (marked ∙ v2) (kept ∙ shown.0, said ∙ shown.1) in
            (t, ground (arith, visit, out, e), after)
      ]
    ]

    -- With fuel, an interval and a clock for the waits, let a held file, once in the tracker and
    -- not marked as not V2, have an entry of another epoch than the chain tells of it now, and let
    -- its run be fully attested: then the tick comes to an end, the file's entry is the new epoch,
    -- done after one attempt, and the report has an attestation of it.
    pub tick-attests :
        (s : EpochWatcher)
        → IsDistinct w.held_roots
        → contains w.held_roots root ≡ true
        → contains s.not_v2 root ≡ false
        → lookup root s.state ≡ some old
        → (t : EpochWatcher) × (tick a w s ≡ some t)
          × (lookup root t.state ≡ some attested_entry)
          × (reports root t ≡ true)
    unfolding tick
    tick-attests s distinct member v2 found =
        let (t, e, after) =
          visit_attests w.held_roots
            record {
              state = s.state;
              not_v2 = s.not_v2;
              report = record { checked = 0; attested = []; retry = [] };
            }
            distinct member v2 (found, refl) in
        (t, e, after.0, after.1)
