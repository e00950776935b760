-- ===== src/Trigger.antt =====
-- crates/sum-node/src/inbound_v2.rs: the attestation of a file's held chunks against its latest
-- assignment epoch, with the coverage row of crates/sum-types/src/rpc_types.rs.
-- An error is what it reports. Outside the `Option`s of the source, `none` is fuel run out or a panic.
use storage_node_interface_p.Prelude.{
  ℕ, Bool, Option, none, some, List, length, nat_beq, ltb, if◌then◌else◌, Result, ok, err,
}
use storage_node_interface_p.Text.{Text}
use storage_node_interface_p.Merkle.{Bytes}
use storage_node_interface_p.Rendezvous.{Wire}
use storage_node_interface_p.Attestor.{AttestSummary, V2Params, AttestorRpc, attest}

pub record ArchiveCoverageSummaryV2 : Type 0 where
  pub archive : Text
  pub assigned_count : Option ℕ
  pub attested_count : ℕ
  pub currently_active : Bool

pub record AssignmentEpochCoverageV2 : Type 0 where
  pub epoch_height : ℕ
  pub is_epoch_zero : Bool
  pub covered_count : ℕ
  pub per_archive : List ArchiveCoverageSummaryV2

-- The fields of the row that the attestation reads.
pub record AssignmentCoverageV2 : Type 0 where
  pub assignment_epochs : List ℕ
  pub latest_assignment_epoch : ℕ
  pub per_epoch : List AssignmentEpochCoverageV2

unfoldable pub resolved_latest_epoch : AssignmentCoverageV2 → Option ℕ
resolved_latest_epoch c =
    if nat_beq (length c.assignment_epochs) 0 then none else some c.latest_assignment_epoch

pub record FileShape : Type 0 where
  pub chunk_count : ℕ
  pub assignment_height : ℕ
  pub visibility : ℕ
  pub lifecycle : ℕ

pub data TriggerError : Type 0 where
  call_failed : Text → TriggerError
  no_coverage_row : TriggerError
  -- latest and assignment_height
  epoch_below : ℕ → ℕ → TriggerError

pub record AttestTriggerRpc : Type 0 where
  pub fetch_file_shape : Bytes → Result Text FileShape
  pub fetch_snapshot : ℕ → Result Text (List ℕ)
  pub fetch_nonce : Text → Result Text ℕ
  pub fetch_coverage : Bytes → Result Text (Option AssignmentCoverageV2)

unfoldable pub epoch_from_coverage : AssignmentCoverageV2 → ℕ → Result TriggerError ℕ
epoch_from_coverage coverage assignment_height = elim (resolved_latest_epoch coverage) [
  | none ↦ ok assignment_height
  | some latest ↦
      if ltb latest assignment_height then err (epoch_below latest assignment_height) else ok latest
]

unfoldable pub latest_assignment_epoch :
    AttestTriggerRpc → Bytes → FileShape → Result TriggerError ℕ
latest_assignment_epoch rpc merkle_root shape = elim (rpc.fetch_coverage merkle_root) [
  | err e ↦ err (call_failed e)
  | ok none ↦ err no_coverage_row
  | ok (some coverage) ↦ epoch_from_coverage coverage shape.assignment_height
]

-- The attestor, and the arguments that do not change between its runs.
pub record Archive : Type 0 where
  pub wire : Wire
  pub params : V2Params
  pub my_addr : ℕ
  pub my_addr_base58 : Text
  pub poll_interval : ℕ
  pub batch_timeout : ℕ
  pub fuel : ℕ

module _ (a : Archive) (trigger_rpc : AttestTriggerRpc) (rpc : AttestorRpc) where
  -- Once the epoch is known.
  unfoldable pub attest_at : Bytes → List ℕ → FileShape → ℕ → Option (Option AttestSummary)
  attest_at merkle_root held shape epoch = elim (trigger_rpc.fetch_snapshot epoch) [
    | err e ↦ some none
    | ok snapshot ↦ elim (trigger_rpc.fetch_nonce a.my_addr_base58) [
      | err e ↦ some none
      | ok starting_nonce ↦
          elim (attest a.wire rpc a.fuel a.params a.my_addr record {
            merkle_root = merkle_root;
            chunk_count = shape.chunk_count;
            snapshot = snapshot;
            held = held;
            starting_nonce = starting_nonce;
            poll_interval = a.poll_interval;
            batch_timeout = a.batch_timeout;
          }) [ none ↦ none | some summary ↦ some (some summary) ]
    ]
  ]

  unfoldable pub run_attestation : Bytes → List ℕ → Option (Option AttestSummary)
  run_attestation merkle_root held =
      if nat_beq (length held) 0
      then some none
      else elim (trigger_rpc.fetch_file_shape merkle_root) [
        | err e ↦ some none
        | ok shape ↦ elim (latest_assignment_epoch trigger_rpc merkle_root shape) [
          | err e ↦ some none
          | ok epoch ↦ attest_at merkle_root held shape epoch
        ]
      ]
