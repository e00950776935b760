-- ===== src/Watcher.antt =====
-- crates/sum-node/src/epoch_watcher.rs: attesting a held file again when its assignment epoch
-- changes.
-- At a tick the tracker and the chain give one answer to each question about a file; the run that
-- the tick starts for the file asks anew. `none` is fuel run out in a run. `run`'s timer and its
-- shutdown are left out: it is a tick after another.
pub mod Ticks
pub mod Kept
pub mod Changes
pub mod Attests
mod Examples
use storage_node_interface_p.Prelude.{
  ℕ, ◌+◌, Bool, true, false, ◌||◌, Option, none, some, List, [], ◌∷◌, ◌++◌, length, nat_beq, leb,
  if◌then◌else◌, find_by, Result, ok, err,
}
use storage_node_interface_p.Prelude.Eq.{◌==◌, nat_eq, list_eq, contains}
use storage_node_interface_p.Prelude.Assoc.{Assoc, lookup, insert}
use storage_node_interface_p.Merkle.{Bytes}
use storage_node_interface_p.Rendezvous.{chunks_for_archive_v2}
use storage_node_interface_p.PushValidator.Ask.{is_abandoned}
use storage_node_interface_p.Attestor.{
  AttestSummary, fully_attested, V2Params, AttestorRpc, intersection,
}
use storage_node_interface_p.Trigger.{
  ArchiveCoverageSummaryV2, AssignmentEpochCoverageV2, AssignmentCoverageV2, resolved_latest_epoch,
  FileShape, TriggerError, call_failed, AttestTriggerRpc, epoch_from_coverage, Archive,
  run_attestation,
}

abbrev pub max_attempts_per_epoch : ℕ
max_attempts_per_epoch = 3

pub record TickReport : Type 0 where
  pub checked : ℕ
  pub attested : List (Bytes × ℕ)
  pub retry : List Bytes

pub record EpochState : Type 0 where
  pub epoch : ℕ
  pub done : Bool
  pub attempts : ℕ

-- What a tick meets: the held tracker, what the watcher is answered about a file, and what the run
-- for the file is.
pub record World : Type 0 where
  pub held_roots : List Bytes
  pub held_for : Bytes → List ℕ
  pub asked : Bytes → AttestTriggerRpc
  pub running : Bytes → AttestTriggerRpc
  pub attestor_rpc : Bytes → AttestorRpc

-- What the watcher keeps between ticks, and the report of the tick.
pub record EpochWatcher : Type 0 where
  pub state : Assoc Bytes EpochState
  pub not_v2 : List Bytes
  pub report : TickReport

-- `None` when the epoch is handled, or the state to go on from.
unfoldable pub entry_for : Option EpochState → ℕ → Option EpochState
entry_for none epoch = some record { epoch = epoch; done = false; attempts = 0 }
entry_for (some st) epoch =
    if nat_beq st.epoch epoch
    then (if st.done then none else some st)
    else some record { epoch = epoch; done = false; attempts = 0 }

unfoldable pub put : Bytes → EpochState → EpochWatcher → EpochWatcher
put root st s = record { state = insert root st s.state; not_v2 = s.not_v2; report = s.report }

-- The arms of the `match` on the summary.
unfoldable pub is_finished : Option AttestSummary → Bool
is_finished none = false
is_finished (some summary) = fully_attested summary

-- The end of `check`, after the run.
unfoldable pub ran : Bytes → EpochState → Option AttestSummary → EpochWatcher → EpochWatcher
ran root st summary s =
    let finished = is_finished summary in
    record {
      state =
          insert root record { epoch = st.epoch; done = finished; attempts = st.attempts + 1 }
            s.state;
      not_v2 = s.not_v2;
      report = record {
        checked = s.report.checked;
        attested =
            if finished then s.report.attested ++ ((root, st.epoch) ∷ []) else s.report.attested;
        retry = if finished then s.report.retry else s.report.retry ++ (root ∷ []);
      };
    }

module _ (a : Archive) where
  -- How many chunks the chain counts for this archive in the epoch.
  unfoldable pub attested_for : AssignmentCoverageV2 → ℕ → ℕ
  attested_for coverage epoch =
      elim (find_by (λ (e : AssignmentEpochCoverageV2). nat_beq e.epoch_height epoch)
        coverage.per_epoch) [
          | none ↦ 0
          | some row ↦
              elim (find_by (λ (c : ArchiveCoverageSummaryV2). c.archive == a.my_addr_base58)
                row.per_archive) [ none ↦ 0 | some c ↦ c.attested_count ]
        ]

  unfoldable pub already_attested :
      AttestTriggerRpc
      → Bytes
      → AssignmentCoverageV2
      → FileShape
      → ℕ
      → List ℕ
      → Result TriggerError Bool
  already_attested rpc root coverage shape epoch held = elim (rpc.fetch_snapshot epoch) [
    | err e ↦ err (call_failed e)
    | ok snapshot ↦
        let assigned =
          chunks_for_archive_v2 a.wire root shape.chunk_count snapshot
            a.params.assignment_replication_factor a.my_addr in
        let wanted = length (intersection assigned held) in
        ok (nat_beq wanted 0 || leb wanted (attested_for coverage epoch))
  ]

  -- Whether the epoch needs no run: nothing is held, or, for a file not seen before, the chain has
  -- the attestations.
  unfoldable pub needs_no_run :
      World
      → Bytes
      → Option EpochState
      → AssignmentCoverageV2
      → FileShape
      → ℕ
      → Result TriggerError Bool
  needs_no_run w root previous coverage shape epoch =
      let held = w.held_for root in
      if nat_beq (length held) 0 then ok true else elim previous [
        | none ↦ already_attested (w.asked root) root coverage shape epoch held
        | some st ↦ ok false
      ]

  -- `check` once the epoch is known.
  unfoldable pub check_epoch :
      World
      → Bytes
      → AssignmentCoverageV2
      → FileShape
      → ℕ
      → EpochWatcher
      → Option (EpochWatcher × Result TriggerError (Unit {0}))
  check_epoch w root coverage shape epoch s =
      let previous = lookup root s.state in
      elim (entry_for previous epoch) [
        | none ↦ some (s, ok tt)
        | some st ↦
            if leb max_attempts_per_epoch st.attempts
            then some (s, ok tt)
            else elim (needs_no_run w root previous coverage shape epoch) [
              | err e ↦ some (s, err e)
              | ok true ↦ some (
                put root record { epoch = st.epoch; done = true; attempts = st.attempts } s,
                ok tt,
              )
              | ok false ↦
                  elim (run_attestation a (w.running root) (w.attestor_rpc root) root
                    (w.held_for root)) [
                      | none ↦ none
                      | some summary ↦ some (ran root st summary s, ok tt)
                    ]
            ]
      ]

  -- `report.checked += 1`
  unfoldable pub count_checked : EpochWatcher → EpochWatcher
  count_checked s = record {
    state = s.state;
    not_v2 = s.not_v2;
    report = record {
      checked = s.report.checked + 1;
      attested = s.report.attested;
      retry = s.report.retry;
    };
  }

  -- `check` with a coverage row.
  unfoldable pub check_row :
      World
      → Bytes
      → AssignmentCoverageV2
      → EpochWatcher
      → Option (EpochWatcher × Result TriggerError (Unit {0}))
  check_row w root coverage s = elim (resolved_latest_epoch coverage) [
    | none ↦ some (s, ok tt)
    | some latest ↦ elim ((w.asked root).fetch_file_shape root) [
      | err e ↦ some (s, err (call_failed e))
      | ok shape ↦
          if is_abandoned shape.lifecycle
          then some (s, ok tt)
          else elim (epoch_from_coverage coverage shape.assignment_height) [
            | err e ↦ some (s, err e)
            | ok epoch ↦ check_epoch w root coverage shape epoch s
          ]
    ]
  ]

  unfoldable pub check :
      World → Bytes → EpochWatcher → Option (EpochWatcher × Result TriggerError (Unit {0}))
  check w root s = elim ((w.asked root).fetch_coverage root) [
    | err e ↦ some (s, err (call_failed e))
    | ok none ↦
        some (record { state = s.state; not_v2 = root ∷ s.not_v2; report = s.report }, ok tt)
    | ok (some coverage) ↦ check_row w root coverage (count_checked s)
  ]

  -- `report.retry.push(root)` when `check` failed.
  unfoldable pub push_retry : Bytes → EpochWatcher × Result TriggerError (Unit {0}) → EpochWatcher
  push_retry root (s, ok _) = s
  push_retry root (s, err e) = record {
    state = s.state;
    not_v2 = s.not_v2;
    report = record {
      checked = s.report.checked;
      attested = s.report.attested;
      retry = s.report.retry ++ (root ∷ []);
    };
  }

  -- The loop over the roots.
  unfoldable pub visit_roots : World → List Bytes → EpochWatcher → Option EpochWatcher
  visit_roots w [] s = some s
  visit_roots w (root ∷ roots) s =
      if contains s.not_v2 root
      then visit_roots w roots s
      else elim (check w root s) [ none ↦ none | some r ↦ visit_roots w roots (push_retry root r) ]

  unfoldable pub tick : World → EpochWatcher → Option EpochWatcher
  tick w s = visit_roots w w.held_roots record {
    state = s.state;
    not_v2 = s.not_v2;
    report = record { checked = 0; attested = []; retry = [] };
  }
