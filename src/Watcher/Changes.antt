-- ===== src/Watcher/Changes.antt =====
-- A handled epoch is left alone, and a changed one is attested.
use storage_node_interface_p.Prelude.{
  ℕ, ◌≡◌, refl, sym, ap, subst, ◌∙◌, Bool, true, false, ◌||◌, some, ◌∷◌, nat_beq, leb, Result, ok,
  err, Result-cases, Option-cases, Bool-cases, inl, inr, arith, some_eq,
}
use storage_node_interface_p.Prelude.Eq.{◌==◌, nat_eq, list_eq, list_beq_iff}
use storage_node_interface_p.Prelude.Assoc.{lookup}
use storage_node_interface_p.Merkle.{Bytes}
use storage_node_interface_p.PushValidator.Ask.{is_abandoned}
use storage_node_interface_p.Trigger.{
  AssignmentCoverageV2, resolved_latest_epoch, FileShape, TriggerError, epoch_from_coverage,
  Archive,
}
use storage_node_interface_p.Watcher.{
  max_attempts_per_epoch, EpochState, World, EpochWatcher, entry_for, check_epoch, count_checked,
  check_row, check, push_retry, tick, call_failed,
}
use storage_node_interface_p.Watcher.Ticks.{check-Effect, visit_roots-keeps}
use storage_node_interface_p.Watcher.Kept.{reports, Effect-other}

-- The chain tells of the file, at this tick, that it is live and of which epoch.
abbrev pub Tells : World → Bytes → AssignmentCoverageV2 → ℕ → FileShape → ℕ → Type 0
Tells w root coverage latest shape epoch =
    ((w.asked root).fetch_coverage root ≡ ok (some coverage))
    × (resolved_latest_epoch coverage ≡ some latest)
    × ((w.asked root).fetch_file_shape root ≡ ok shape)
    × (is_abandoned shape.lifecycle ≡ false)
    × (epoch_from_coverage coverage shape.assignment_height ≡ ok epoch)

-- Whatever the chain tells of the file at this tick, the epoch is this one.
abbrev pub StaysAt : World → Bytes → ℕ → Type 0
StaysAt w root epoch =
    (coverage : AssignmentCoverageV2) (latest : ℕ) (shape : FileShape) (told : ℕ)
    → Tells w root coverage latest shape told
    → told ≡ epoch

-- The epoch is done, or its attempts are spent.
abbrev pub is_settled : EpochState → Bool
is_settled st = st.done || leb max_attempts_per_epoch st.attempts

module _ (a : Archive) (w : World) (root : Bytes) where
  -- The entry of the root, and whether an attestation of it was reported.
  abbrev pub Shows : EpochState → Bool → EpochWatcher → Type 0
  Shows st told s = (lookup root s.state ≡ some st) × (reports root s ≡ told)

  check_epoch-settled :
      (st : EpochState) (coverage : AssignmentCoverageV2) (shape : FileShape) (epoch : ℕ)
      (s : EpochWatcher)
      → is_settled st ≡ true
      → epoch ≡ st.epoch
      → lookup root s.state ≡ some st
      → check_epoch a w root coverage shape epoch s ≡ some (s, ok tt)
  unfolding check_epoch entry_for
  check_epoch-settled st coverage shape epoch s settled same found =
      let hit : nat_beq st.epoch epoch ≡ true = ground (arith, same) in
      elim (Bool-cases st.done) [
        | inl done ↦ ground (arith, found, hit, done)
        | inr open_yet ↦ ground (arith, found, hit, open_yet, settled)
      ]

  -- On a settled entry a check of the root, with a row, ends at once.
  check_row-settled :
      (st : EpochState) (told : Bool) (coverage : AssignmentCoverageV2) (s : EpochWatcher)
      (r : EpochWatcher × Result TriggerError (Unit {0}))
      → is_settled st ≡ true
      → StaysAt w root st.epoch
      → (w.asked root).fetch_coverage root ≡ ok (some coverage)
      → check_row a w root coverage s ≡ some r
      → Shows st told s
      → Shows st told r.0
  unfolding check_row
  check_row-settled st told coverage s r settled stays row h shown =
      let ends : (q : EpochWatcher × Result TriggerError (Unit {0}))
          → q.0 ≡ s
          → q ≡ r
          → Shows st told r.0 =
        λ q here same.
          subst (λ p. Shows st told p.0) same (subst (Shows st told) (sym here) shown) in
      elim (Option-cases (resolved_latest_epoch coverage)) [
        | inl none_listed ↦ ends (s, ok tt) refl (some_eq (ground (arith, h, none_listed)))
        | inr (latest, l) ↦ elim (Result-cases ((w.asked root).fetch_file_shape root)) [
          | inr (x, f) ↦ ends (s, err (call_failed x)) refl (some_eq (ground (arith, h, l, f)))
          | inl (shape, f) ↦ elim (Bool-cases (is_abandoned shape.lifecycle)) [
            | inl gone ↦ ends (s, ok tt) refl (some_eq (ground (arith, h, l, f, gone)))
            | inr live ↦
                elim (Result-cases (epoch_from_coverage coverage shape.assignment_height)) [
                  | inr (x, e) ↦ ends (s, err x) refl (some_eq (ground (arith, h, l, f, live, e)))
                  | inl (epoch, e) ↦
                      let at : epoch ≡ st.epoch =
                        stays coverage latest shape epoch (row, l, f, live, e) in
                      let quiet =
                        check_epoch-settled st coverage shape epoch s settled at shown.0 in
                      ends (s, ok tt) refl (some_eq (ground (arith, h, l, f, live, e, quiet)))
                ]
          ]
        ]
      ]

  check-settled :
      (st : EpochState) (told : Bool) (s : EpochWatcher)
      (r : EpochWatcher × Result TriggerError (Unit {0}))
      → is_settled st ≡ true
      → StaysAt w root st.epoch
      → check a w root s ≡ some r
      → Shows st told s
      → Shows st told r.0
  unfolding check count_checked
  check-settled st told s r settled stays h shown =
      elim (Result-cases ((w.asked root).fetch_coverage root)) [
        | inr (x, f) ↦
            let same : (s, err (call_failed x)) ≡ r = some_eq (ground (arith, h, f)) in
            subst (λ q. Shows st told q.0) same shown
        | inl (found, f) ↦ elim (Option-cases found) [
          | inl no_row ↦
              let same : (
                record { state = s.state; not_v2 = root ∷ s.not_v2; report = s.report },
                ok tt,
              )
                  ≡ r =
                some_eq (ground (arith, h, f, no_row)) in
              subst (λ q. Shows st told q.0) same shown
          | inr (coverage, row) ↦
              check_row-settled st told coverage (count_checked a s) r settled stays (f ∙ ap ok row)
                (ground (arith, h, f, row)) shown
        ]
      ]

  push_retry-Shows :
      (st : EpochState) (told : Bool) (checked : Bytes)
      (r : EpochWatcher × Result TriggerError (Unit {0}))
      → Shows st told r.0
      → Shows st told (push_retry a checked r)
  unfolding push_retry
  push_retry-Shows st told checked (t, ok u) shown = shown
  push_retry-Shows st told checked (t, err e) shown = shown

  -- The same for a check of another root.
  pub other-Shows :
      (st : EpochState) (told : Bool) (checked : Bytes) (s : EpochWatcher)
      (r : EpochWatcher × Result TriggerError (Unit {0}))
      → (checked == root) ≡ false
      → check a w checked s ≡ some r
      → Shows st told s
      → Shows st told (push_retry a checked r)
  other-Shows st told checked s r differs h (entry, told_before) =
      let (kept, said, marked) =
        Effect-other root checked s (push_retry a checked r) differs
          (check-Effect a w checked s r h) in
      (kept ∙ entry, said ∙ told_before)

  -- A tick in which the chain tells no other epoch of a file leaves the file's entry as it is and
  -- reports no attestation of it, when that entry is done or has used up its attempts.
  pub tick-settled :
      (st : EpochState) (s t : EpochWatcher)
      → is_settled st ≡ true
      → StaysAt w root st.epoch
      → lookup root s.state ≡ some st
      → tick a w s ≡ some t
      → (lookup root t.state ≡ some st) × (reports root t ≡ false)
  unfolding tick
  tick-settled st s t settled stays found h =
      visit_roots-keeps a w (Shows st false)
        (λ checked p r e shown. elim (Bool-cases (checked == root)) [
          | inr differs ↦ other-Shows st false checked p r differs e shown
          | inl same ↦
              let here : checked ≡ root = (list_beq_iff checked root).0 same in
              push_retry-Shows st false checked r (
                check-settled st false p r settled stays (ap (λ k. check a w k p) (sym here) ∙ e)
                  shown)
        ])
        w.held_roots _ t h (found, refl)
