-- ===== src/Watcher/Ticks.antt =====
-- What a check changes, and what a tick leaves as it was.
use storage_node_interface_p.Prelude.{
  ℕ, ◌+◌, ◌≤◌, ◌<◌, ◌≡◌, refl, sym, subst, Bool, true, false, Option, none, some, List, [], ◌∷◌,
  ◌++◌, leb, if◌then◌else◌, Result, ok, err, Result-cases, Option-cases, Bool-cases, inl, inr,
  arith, some_eq,
}
use storage_node_interface_p.Prelude.Eq.{nat_eq, list_eq, contains}
use storage_node_interface_p.Prelude.Assoc.{Assoc, lookup, insert}
use storage_node_interface_p.Merkle.{Bytes}
use storage_node_interface_p.PushValidator.Ask.{is_abandoned}
use storage_node_interface_p.Attestor.{AttestSummary}
use storage_node_interface_p.Trigger.{
  AssignmentCoverageV2, resolved_latest_epoch, FileShape, TriggerError, call_failed,
  epoch_from_coverage, Archive, run_attestation,
}
use storage_node_interface_p.Watcher.{
  max_attempts_per_epoch, EpochState, World, EpochWatcher, entry_for, put, ran, is_finished,
  needs_no_run, check_epoch, count_checked, check_row, check, push_retry, visit_roots,
}

-- The entry is replaced, or none is.
abbrev pub with_entry : Bytes → Option EpochState → Assoc Bytes EpochState → Assoc Bytes EpochState
with_entry root none state = state
with_entry root (some st) state = insert root st state

abbrev pub IsWithin : Option EpochState → Type 0
IsWithin none = Unit {0}
IsWithin (some st) = st.attempts ≤ max_attempts_per_epoch

abbrev pub with_attested : Bytes → Option ℕ → List (Bytes × ℕ) → List (Bytes × ℕ)
with_attested root none attested = attested
with_attested root (some epoch) attested = attested ++ ((root, epoch) ∷ [])

-- A check of the root leads from the first watcher to the second: its entry is left or replaced by
-- one within the limit, an attestation of it may be reported, and it may turn out not to be V2.
abbrev pub Effect : Bytes → EpochWatcher → EpochWatcher → Type 0
Effect root s t =
    (entry : Option EpochState) × (attested : Option ℕ) × (flagged : Bool) × (t.state
      ≡ with_entry root entry s.state)
    × IsWithin entry
    × (t.report.attested ≡ with_attested root attested s.report.attested)
    × (t.not_v2 ≡ (if flagged then root ∷ s.not_v2 else s.not_v2))

module _ (a : Archive) (w : World) (root : Bytes) where
  push_retry-Effect :
      (s : EpochWatcher) (r : EpochWatcher × Result TriggerError (Unit {0}))
      → Effect root s r.0
      → Effect root s (push_retry a root r)
  unfolding push_retry
  push_retry-Effect s (t, ok u) h = h
  push_retry-Effect s (t, err e) h = h

  same-Effect : (s : EpochWatcher) → Effect root s s
  same-Effect s = (none, none, false, refl, tt, refl, refl)

  ran-Effect :
      (s : EpochWatcher) (st : EpochState) (summary : Option AttestSummary)
      → st.attempts < max_attempts_per_epoch
      → Effect root s (ran root st summary s)
  unfolding ran
  ran-Effect s st summary few = elim (Bool-cases (is_finished summary)) [
    | inl finished ↦ (
      some record { epoch = st.epoch; done = is_finished summary; attempts = st.attempts + 1 },
      some st.epoch,
      false,
      refl,
      omega (arith, few),
      ground (arith, finished),
      refl,
    )
    | inr unfinished ↦ (
      some record { epoch = st.epoch; done = is_finished summary; attempts = st.attempts + 1 },
      none,
      false,
      refl,
      omega (arith, few),
      ground (arith, unfinished),
      refl,
    )
  ]

  check_epoch-Effect :
      (coverage : AssignmentCoverageV2) (shape : FileShape) (epoch : ℕ) (s : EpochWatcher)
      (r : EpochWatcher × Result TriggerError (Unit {0}))
      → check_epoch a w root coverage shape epoch s ≡ some r
      → Effect root s r.0
  unfolding check_epoch put
  check_epoch-Effect coverage shape epoch s r h =
      let previous = lookup root s.state in
      elim (Option-cases (entry_for previous epoch)) [
        | inl handled ↦
            let same : (s, ok tt) ≡ r = some_eq (ground (arith, h, handled)) in
            subst (λ q. Effect root s q.0) same (same-Effect s)
        | inr (st, e) ↦ elim (Bool-cases (leb max_attempts_per_epoch st.attempts)) [
          | inl spent ↦
              let same : (s, ok tt) ≡ r = some_eq (ground (arith, h, e, spent)) in
              subst (λ q. Effect root s q.0) same (same-Effect s)
          | inr left ↦ elim (Result-cases (needs_no_run a w root previous coverage shape epoch)) [
            | inr (x, n) ↦
                let same : (s, err x) ≡ r = some_eq (ground (arith, h, e, left, n)) in
                subst (λ q. Effect root s q.0) same (same-Effect s)
            | inl (idle, n) ↦ elim (Bool-cases idle) [
              | inl nothing ↦
                  let kept : EpochState = record {
                    epoch = st.epoch;
                    done = true;
                    attempts = st.attempts;
                  } in
                  let same : (put root kept s, ok tt) ≡ r =
                    some_eq (ground (arith, h, e, left, n, nothing)) in
                  subst (λ q. Effect root s q.0) same
                    (some kept, none, false, refl, ground (arith, left), refl, refl)
              | inr run ↦
                  elim (Option-cases (
                    run_attestation a (w.running root) (w.attestor_rpc root) root
                      (w.held_for root))) [
                        | inl out ↦ absurd (ground (arith, h, e, left, n, run, out))
                        | inr (summary, out) ↦
                            let same : (ran root st summary s, ok tt) ≡ r =
                              some_eq (ground (arith, h, e, left, n, run, out)) in
                            subst (λ q. Effect root s q.0) same
                              (ran-Effect s st summary (ground (arith, left)))
                      ]
            ]
          ]
        ]
      ]

  check_row-Effect :
      (coverage : AssignmentCoverageV2) (s : EpochWatcher)
      (r : EpochWatcher × Result TriggerError (Unit {0}))
      → check_row a w root coverage s ≡ some r
      → Effect root s r.0
  unfolding check_row
  check_row-Effect coverage s r h =
      let ends : (q : EpochWatcher × Result TriggerError (Unit {0}))
          → q.0 ≡ s
          → q ≡ r
          → Effect root s r.0 =
        λ q here same.
          subst (λ p. Effect root s p.0) same (subst (Effect root s) (sym here) (same-Effect s)) in
      elim (Option-cases (resolved_latest_epoch coverage)) [
        | inl none_listed ↦ ends (s, ok tt) refl (some_eq (ground (arith, h, none_listed)))
        | inr (latest, l) ↦ elim (Result-cases ((w.asked root).fetch_file_shape root)) [
          | inr (x, f) ↦ ends (s, err (call_failed x)) refl (some_eq (ground (arith, h, l, f)))
          | inl (shape, f) ↦ elim (Bool-cases (is_abandoned shape.lifecycle)) [
            | inl gone ↦ ends (s, ok tt) refl (some_eq (ground (arith, h, l, f, gone)))
            | inr live ↦
                elim (Result-cases (epoch_from_coverage coverage shape.assignment_height)) [
                  | inr (x, e) ↦ ends (s, err x) refl (some_eq (ground (arith, h, l, f, live, e)))
                  | inl (epoch, e) ↦
                      check_epoch-Effect coverage shape epoch s r (ground (arith, h, l, f, live, e))
                ]
          ]
        ]
      ]

  pub check-Effect :
      (s : EpochWatcher) (r : EpochWatcher × Result TriggerError (Unit {0}))
      → check a w root s ≡ some r
      → Effect root s (push_retry a root r)
  unfolding check count_checked
  check-Effect s r h =
      push_retry-Effect s r (elim (Result-cases ((w.asked root).fetch_coverage root)) [
        | inr (x, f) ↦
            let same : (s, err (call_failed x)) ≡ r = some_eq (ground (arith, h, f)) in
            subst (λ q. Effect root s q.0) same (same-Effect s)
        | inl (found, f) ↦ elim (Option-cases found) [
          | inl no_row ↦
              let same : (
                record { state = s.state; not_v2 = root ∷ s.not_v2; report = s.report },
                ok tt,
              )
                  ≡ r =
                some_eq (ground (arith, h, f, no_row)) in
              subst (λ q. Effect root s q.0) same (none, none, true, refl, tt, refl, refl)
          | inr (coverage, row) ↦
              check_row-Effect coverage (count_checked a s) r (ground (arith, h, f, row))
        ]
      ])

-- What every check keeps, a tick keeps.
module _ {ℓ} (a : Archive) (w : World) (P : EpochWatcher → Type ℓ)
    (step : (root : Bytes) (s : EpochWatcher) (r : EpochWatcher × Result TriggerError (Unit {0}))
      → check a w root s ≡ some r
      → P s
      → P (push_retry a root r)) where
  pub visit_roots-keeps :
      (roots : List Bytes) (s t : EpochWatcher) → visit_roots a w roots s ≡ some t → P s → P t
  unfolding visit_roots
  visit_roots-keeps [] s t h p = subst P (some_eq h) p
  visit_roots-keeps (root ∷ roots) s t h p = elim (Bool-cases (contains s.not_v2 root)) [
    | inl skip ↦ visit_roots-keeps roots s t (ground (arith, h, skip)) p
    | inr visit ↦ elim (Option-cases (check a w root s)) [
      | inl out ↦ absurd (ground (arith, h, visit, out))
      | inr (r, e) ↦
          visit_roots-keeps roots (push_retry a root r) t (ground (arith, h, visit, e))
            (step root s r e p)
    ]
  ]
