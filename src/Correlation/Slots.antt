-- ===== src/Correlation/Slots.antt =====
-- What each operation does to the slot of every key.
use storage_node_interface_p.Prelude.{
  ℕ, Bool, true, false, ◌&&◌, ◌≡◌, ◌≢◌, ◌↔◌, ◌⊎◌, refl, Option, some, none, arith, if◌then◌else◌,
  ok, Bool-cases, Option-cases, Result-cases, inl, inr,
}
use storage_node_interface_p.Prelude.Eq.{◌==◌, nat_eq, list_eq, ==_refl}
use storage_node_interface_p.Prelude.Assoc.{
  lookup, IsMap, lookup-insert, lookup-remove, lookup-retain, insert-IsMap, remove-IsMap,
}
use storage_node_interface_p.Codec.{ShardResponseVersioned}
use storage_node_interface_p.Correlation.{
  OutboundKey, key_eq, key_beq_iff, OutboundRequestKind, OutboundOrigin, new_origin, check,
  kind_protocol, kind_label, domain_protocol,
}
use storage_node_interface_p.Correlation.Tracker.{
  OutboundTracker, PendingOutbound, Poison, Slot, pending, poisoned, first_label, record_outbound,
  accept, correlate_response, on_failure, is_fresh, reap,
}

-- The slot that a request leaves, given the one before.
abbrev pub filed : OutboundKey → ℕ → OutboundRequestKind → ℕ → Option Slot → Option Slot
filed key peer kind now before =
    if kind_protocol kind == domain_protocol key.domain
    then elim before [
      | none ↦ some (pending (record { peer = peer; kind = kind; issued_at = now }))
      | some slot ↦
          some (poisoned (record { at = now; first = first_label slot; second = kind_label kind }))
    ]
    else before

-- `record_outbound` files a request on a free key, poisons a taken one, changes nothing on the
-- wrong domain, and leaves every other key as it was.
pub lookup-record_outbound :
    (slots : OutboundTracker) (key : OutboundKey) (peer : ℕ) (kind : OutboundRequestKind) (now : ℕ)
    (j : OutboundKey)
    → lookup j (record_outbound slots key peer kind now).0
      ≡ (if key == j then filed key peer kind now (lookup key slots) else lookup j slots)
unfolding record_outbound
lookup-record_outbound slots key peer kind now j =
    elim (Bool-cases (kind_protocol kind == domain_protocol key.domain)) [
      | inr wrong ↦ rw (wrong, filed) (ground (arith, key_beq_iff key j))
      | inl agrees ↦ rw agrees (elim (Option-cases (lookup key slots)) [
        | inl free ↦ rw free (lookup-insert key j _ slots)
        | inr (slot, taken) ↦ rw taken (lookup-insert key j _ slots)
      ])
    ]

-- Whether the slot, if any, awaits a terminal event.
abbrev pub is_pending : Option Slot → Bool
is_pending (some (pending request)) = true
is_pending (some (poisoned p)) = false
is_pending none = false

-- Whatever the outcome, a terminal event spends a pending key, leaves a poisoned one, and touches no
-- other.
pub lookup-correlate_response :
    (slots : OutboundTracker) (key : OutboundKey) (peer : ℕ) (response : ShardResponseVersioned)
    (j : OutboundKey)
    → lookup j (correlate_response slots key peer response).0
      ≡ (if key == j && is_pending (lookup key slots) then none else lookup j slots)
unfolding correlate_response
lookup-correlate_response slots key peer response j =
    ground (arith, lookup-remove key j slots, key_beq_iff key j)

pub lookup-on_failure :
    (slots : OutboundTracker) (key j : OutboundKey)
    → lookup j (on_failure slots key).0
      ≡ (if key == j && is_pending (lookup key slots) then none else lookup j slots)
unfolding on_failure
lookup-on_failure slots key j = ground (arith, lookup-remove key j slots, key_beq_iff key j)

pub record_outbound-IsMap :
    (slots : OutboundTracker) (key : OutboundKey) (peer : ℕ) (kind : OutboundRequestKind) (now : ℕ)
    → IsMap slots
    → IsMap (record_outbound slots key peer kind now).0
unfolding record_outbound
record_outbound-IsMap slots key peer kind now h =
    elim (Bool-cases (kind_protocol kind == domain_protocol key.domain)) [
      | inr wrong ↦ rw wrong h
      | inl agrees ↦ rw agrees (elim (Option-cases (lookup key slots)) [
        | inl free ↦ rw free (insert-IsMap key _ slots h)
        | inr (slot, taken) ↦ rw taken (insert-IsMap key _ slots h)
      ])
    ]

pub correlate_response-IsMap :
    (slots : OutboundTracker) (key : OutboundKey) (peer : ℕ) (response : ShardResponseVersioned)
    → IsMap slots
    → IsMap (correlate_response slots key peer response).0
unfolding correlate_response
correlate_response-IsMap slots key peer response h = ground (arith, remove-IsMap key slots h)

pub on_failure-IsMap :
    (slots : OutboundTracker) (key : OutboundKey) → IsMap slots → IsMap (on_failure slots key).0
unfolding on_failure
on_failure-IsMap slots key h = ground (arith, remove-IsMap key slots h)

-- On a map with one entry for each key, `reap` keeps a slot exactly when it is fresh, and every
-- slot that it keeps is unchanged.
pub lookup-reap :
    (slots : OutboundTracker) (now ttl : ℕ) (j : OutboundKey)
    → IsMap slots
    → lookup j (reap slots now ttl).0 ≡ elim (lookup j slots) [
      | none ↦ none
      | some slot ↦ if is_fresh now ttl slot then some slot else none
    ]
unfolding reap
lookup-reap slots now ttl j h = lookup-retain _ j slots h

accept_iff :
    (request : PendingOutbound) (peer : ℕ) (response : ShardResponseVersioned)
    (origin : OutboundOrigin)
    → (accept request peer response ≡ ok origin) ↔ (
        (request.peer ≡ peer)
        × (check request.kind response ≡ ok tt)
        × (origin ≡ new_origin peer request.kind))
unfolding accept
accept_iff request peer response origin = (
  λ h. ground (arith, Result-cases (check request.kind response)),
  λ h. ground (arith, Result-cases (check request.kind response)),
)

Slot-cases :
    (o : Option Slot)
    → (o ≡ none)
      ⊎ (((p : Poison) × (o ≡ some (poisoned p)))
          ⊎ ((request : PendingOutbound) × (o ≡ some (pending request))))
Slot-cases none = inl refl
Slot-cases (some (poisoned p)) = inr (inl (p, refl))
Slot-cases (some (pending request)) = inr (inr (request, refl))

-- A response is accepted with an origin exactly when its key holds a pending request to the peer
-- it came from, it answers that request, and the origin is that peer and that request.
pub correlate_response-ok_iff :
    (slots : OutboundTracker) (key : OutboundKey) (peer : ℕ) (response : ShardResponseVersioned)
    (origin : OutboundOrigin)
    → ((correlate_response slots key peer response).1 ≡ ok origin) ↔ (
        (request : PendingOutbound) × (lookup key slots ≡ some (pending request))
        × (request.peer ≡ peer)
        × (check request.kind response ≡ ok tt)
        × (origin ≡ new_origin peer request.kind))
unfolding correlate_response
correlate_response-ok_iff slots key peer response origin = (
  λ h. elim (Slot-cases (lookup key slots)) [
    | inl free ↦ absurd (ground arith)
    | inr (inl (p, taken)) ↦ absurd (ground arith)
    | inr (inr (request, found)) ↦
        let (same, answers, own) = (accept_iff request peer response origin).0 (ground arith) in
        (request, found, same, answers, own)
  ],
  λ h. ground (arith, (accept_iff h.0 peer response origin).1 (h.2, h.3, h.4)),
)

-- After any response to a key, accepted or not, no second response to that key is accepted,
-- whoever sends it.
pub correlate_response_once :
    (slots : OutboundTracker) (key : OutboundKey) (peer later : ℕ)
    (response again : ShardResponseVersioned) (origin : OutboundOrigin)
    → (correlate_response (correlate_response slots key peer response).0 key later again).1
      ≢ ok origin
correlate_response_once slots key peer later response again origin e =
    let second =
      (correlate_response-ok_iff (correlate_response slots key peer response).0 key later again
          origin).0
        e in
    ground (arith, second, lookup-correlate_response slots key peer response key, ==_refl key)
