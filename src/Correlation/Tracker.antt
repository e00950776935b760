-- ===== src/Correlation/Tracker.antt =====
-- crates/sum-net/src/correlation.rs: the outbound requests that await a terminal event. The source's
-- `Instant::now()` is an argument, in milliseconds.
use storage_node_interface_p.Prelude.{
  ℕ, ◌-◌, Bool, not, none, some, ltb, if◌then◌else◌, length, Result, ok, err, ◌>>◌, refuse_if,
}
use storage_node_interface_p.Prelude.Eq.{◌==◌, nat_eq, list_eq}
use storage_node_interface_p.Prelude.Assoc.{Assoc, lookup, insert, remove, retain}
use storage_node_interface_p.Text.{Text}
use storage_node_interface_p.Codec.{ShardResponseVersioned}
use storage_node_interface_p.Correlation.{
  OutboundKey, key_eq, OutboundRequestKind, OutboundOrigin, new_origin, CorrelationError,
  unknown_request_id, poisoned_request_id, peer_mismatch, check, kind_protocol, kind_label,
  domain_protocol, domain_label,
}

abbrev pub poison_ttl : ℕ
poison_ttl = 600_000

pub record PendingOutbound : Type 0 where
  pub peer : ℕ
  pub kind : OutboundRequestKind
  pub issued_at : ℕ

pub record Poison : Type 0 where
  pub at : ℕ
  pub first : Text
  pub second : Text

pub data Slot : Type 0 where
  pending : PendingOutbound → Slot
  poisoned : Poison → Slot

pub data RecordError : Type 0 where
  -- key, and the labels of the first request and of the second
  collision : OutboundKey → Text → Text → RecordError
  -- domain, domain_protocol, kind, kind_protocol
  domain_protocol_mismatch : Text → Text → Text → Text → RecordError

pub data FailureOutcome : Type 0 where
  retained : ℕ → OutboundRequestKind → FailureOutcome
  unknown : FailureOutcome
  refused_poisoned : FailureOutcome

abbrev pub OutboundTracker : Type 0
OutboundTracker = Assoc OutboundKey Slot

unfoldable pub first_label : Slot → Text
first_label (pending p) = kind_label p.kind
first_label (poisoned p) = p.first

unfoldable pub record_outbound :
    OutboundTracker
    → OutboundKey
    → ℕ
    → OutboundRequestKind
    → ℕ
    → OutboundTracker × Result RecordError (Unit {0})
unfolding first_label
record_outbound slots key peer kind now =
    if not (kind_protocol kind == domain_protocol key.domain)
    then (
      slots,
      err (
          domain_protocol_mismatch (domain_label key.domain) (domain_protocol key.domain)
            (kind_label kind) (kind_protocol kind)),
    )
    else elim (lookup key slots) [
      | none ↦
          (insert key (pending (record { peer = peer; kind = kind; issued_at = now })) slots, ok tt)
      | some slot ↦ (
        insert key
            (poisoned (record { at = now; first = first_label slot; second = kind_label kind }))
            slots,
        err (collision key (first_label slot) (kind_label kind)),
      )
    ]

-- The peer, then the content.
unfoldable pub accept :
    PendingOutbound → ℕ → ShardResponseVersioned → Result CorrelationError OutboundOrigin
accept request peer response = do
  refuse_if (not (request.peer == peer)) (peer_mismatch request.peer peer)
  check request.kind response
  ok (new_origin request.peer request.kind)

unfoldable pub correlate_response :
    OutboundTracker
    → OutboundKey
    → ℕ
    → ShardResponseVersioned
    → OutboundTracker × Result CorrelationError OutboundOrigin
unfolding accept
correlate_response slots key peer response = elim (lookup key slots) [
  | none ↦ (slots, err unknown_request_id)
  | some (poisoned p) ↦ (slots, err (poisoned_request_id p.first p.second))
  | some (pending request) ↦ (remove key slots, accept request peer response)
]

unfoldable pub on_failure : OutboundTracker → OutboundKey → OutboundTracker × FailureOutcome
on_failure slots key = elim (lookup key slots) [
  | none ↦ (slots, unknown)
  | some (poisoned p) ↦ (slots, refused_poisoned)
  | some (pending request) ↦ (remove key slots, retained request.peer request.kind)
]

-- `duration_since` is 0 for a later instant.
unfoldable pub is_fresh : ℕ → ℕ → Slot → Bool
is_fresh now ttl (pending request) = ltb (now - request.issued_at) ttl
is_fresh now ttl (poisoned p) = ltb (now - p.at) poison_ttl

unfoldable pub reap : OutboundTracker → ℕ → ℕ → OutboundTracker × ℕ
unfolding is_fresh
reap slots now ttl =
    let kept = retain (λ _ slot. is_fresh now ttl slot) slots in (kept, length slots - length kept)
