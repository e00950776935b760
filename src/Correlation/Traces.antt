-- ===== src/Correlation/Traces.antt =====
-- Histories of the tracker: requests sent, responses and failures that arrive, and reaper runs.
use storage_node_interface_p.Prelude.{
  ℕ, ◌≡◌, refl, sym, ap, subst, subst₂, ◌∙◌, Option, some, none, List, [], ◌∷◌, arith, ok,
  Bool-cases, inl, inr, ◌⊎◌,
}
use storage_node_interface_p.Prelude.Eq.{◌==◌, nat_eq, list_eq, list_beq_iff}
use storage_node_interface_p.Prelude.Assoc.{lookup, IsMap, retain-IsMap}
use storage_node_interface_p.Codec.{ShardResponseVersioned}
use storage_node_interface_p.Correlation.{
  OutboundKey, key_eq, key_beq_iff, OutboundRequestKind, OutboundOrigin, new_origin, check,
  kind_protocol, domain_protocol,
}
use storage_node_interface_p.Correlation.Answers.{request_subject, response_subject, check_iff}
use storage_node_interface_p.Correlation.Tracker.{
  OutboundTracker, PendingOutbound, Poison, Slot, pending, poisoned, record_outbound,
  correlate_response, on_failure, reap,
}
use storage_node_interface_p.Correlation.Slots.{
  filed, lookup-record_outbound, lookup-correlate_response, lookup-on_failure, lookup-reap,
  record_outbound-IsMap, correlate_response-IsMap, on_failure-IsMap, correlate_response-ok_iff,
}

pub data Event : Type 0 where
  -- key, peer, kind, now
  records : OutboundKey → ℕ → OutboundRequestKind → ℕ → Event
  -- key, peer, response
  responds : OutboundKey → ℕ → ShardResponseVersioned → Event
  fails : OutboundKey → Event
  -- now, ttl
  reaps : ℕ → ℕ → Event

unfoldable pub step : OutboundTracker → Event → OutboundTracker
step slots (records key peer kind now) = (record_outbound slots key peer kind now).0
step slots (responds key peer response) = (correlate_response slots key peer response).0
step slots (fails key) = (on_failure slots key).0
step slots (reaps now ttl) = (reap slots now ttl).0

unfoldable pub run : OutboundTracker → List Event → OutboundTracker
run slots [] = slots
run slots (e ∷ es) = run (step slots e) es

pub step-IsMap : (slots : OutboundTracker) (e : Event) → IsMap slots → IsMap (step slots e)
unfolding step reap
step-IsMap slots (records key peer kind now) h = record_outbound-IsMap slots key peer kind now h
step-IsMap slots (responds key peer response) h = correlate_response-IsMap slots key peer response h
step-IsMap slots (fails key) h = on_failure-IsMap slots key h
step-IsMap slots (reaps now ttl) h = retain-IsMap _ slots h

pub run-IsMap : (slots : OutboundTracker) (es : List Event) → IsMap slots → IsMap (run slots es)
unfolding run
run-IsMap slots [] h = h
run-IsMap slots (e ∷ es) h = run-IsMap (step slots e) es (step-IsMap slots e h)

-- The event sends the request with that identity, on the domain of its protocol.
abbrev pub Files : OutboundKey → ℕ → OutboundRequestKind → Event → Type 0
Files key peer kind (records k q sent now) =
    (k ≡ key) × (q ≡ peer) × (sent ≡ kind) × (kind_protocol kind ≡ domain_protocol key.domain)
Files key peer kind (responds k q response) = ⊥
Files key peer kind (fails k) = ⊥
Files key peer kind (reaps now ttl) = ⊥

-- Some event of the history does.
abbrev pub Filed : OutboundKey → ℕ → OutboundRequestKind → List Event → Type 0
Filed key peer kind [] = ⊥
Filed key peer kind (e ∷ es) = Files key peer kind e ⊎ Filed key peer kind es

pub pending-injective :
    {p q : PendingOutbound} → ◌≡◌ {A = Option Slot} (some (pending p)) (some (pending q)) → p ≡ q
pending-injective e = cc

poisoned-ne-pending :
    {p : Poison} {q : PendingOutbound}
    → ◌≡◌ {A = Option Slot} (some (poisoned p)) (some (pending q))
    → ⊥
poisoned-ne-pending e = cc

none-ne-some : {s : Slot} → ◌≡◌ {A = Option Slot} none (some s) → ⊥
none-ne-some e = cc

filed-pending :
    (key : OutboundKey) (peer : ℕ) (kind : OutboundRequestKind) (now : ℕ) (before : Option Slot)
    (request : PendingOutbound)
    → filed key peer kind now before ≡ some (pending request)
    → (before ≡ some (pending request))
      ⊎ Files key request.peer request.kind (records key peer kind now)
filed-pending key peer kind now none request e =
    elim (Bool-cases (kind_protocol kind == domain_protocol key.domain)) [
      | inr wrong ↦ absurd (none-ne-some (rw wrong at e))
      | inl agrees ↦
          let made = pending-injective (rw agrees at e) in
          let same : kind ≡ request.kind = ap (λ r. r.kind) made in
          inr (
            refl,
            ap (λ r. r.peer) made,
            same,
            ap kind_protocol (sym same) ∙ (list_beq_iff _ _).0 agrees,
          )
    ]
filed-pending key peer kind now (some slot) request e =
    elim (Bool-cases (kind_protocol kind == domain_protocol key.domain)) [
      | inr wrong ↦ inl (rw wrong at e)
      | inl agrees ↦ absurd (poisoned-ne-pending (rw agrees at e))
    ]

step-pending :
    (slots : OutboundTracker) (e : Event) (key : OutboundKey) (request : PendingOutbound)
    → IsMap slots
    → lookup key (step slots e) ≡ some (pending request)
    → (lookup key slots ≡ some (pending request)) ⊎ Files key request.peer request.kind e
unfolding step
step-pending slots (records k peer kind now) key request m h =
    let after = sym (lookup-record_outbound slots k peer kind now key) ∙ h in
    elim (Bool-cases (k == key)) [
      | inr other ↦ inl (rw other at after)
      | inl hit ↦
          let same = (key_beq_iff k key).0 hit in
          elim (filed-pending k peer kind now (lookup k slots) request (rw hit at after)) [
            | inl old ↦ inl (subst (λ j. lookup j slots ≡ some (pending request)) same old)
            | inr (_, p, q, fits) ↦ inr (
              same,
              p,
              q,
              subst (λ (j : OutboundKey). kind_protocol request.kind ≡ domain_protocol j.domain)
                  same fits,
            )
          ]
    ]
step-pending slots (responds k peer response) key request m h =
    inl (ground (arith, lookup-correlate_response slots k peer response key))
step-pending slots (fails k) key request m h = inl (ground (arith, lookup-on_failure slots k key))
step-pending slots (reaps now ttl) key request m h =
    inl (ground (arith, lookup-reap slots now ttl key m))

run-pending :
    (slots : OutboundTracker) (es : List Event) (key : OutboundKey) (request : PendingOutbound)
    → IsMap slots
    → lookup key (run slots es) ≡ some (pending request)
    → (lookup key slots ≡ some (pending request)) ⊎ Filed key request.peer request.kind es
unfolding run
run-pending slots [] key request m h = inl h
run-pending slots (e ∷ es) key request m h =
    elim (run-pending (step slots e) es key request (step-IsMap slots e m) h) [
      | inr later ↦ inr (inr later)
      | inl before ↦ elim (step-pending slots e key request m before) [
        | inl old ↦ inl old
        | inr new ↦ inr (inl new)
      ]
    ]

-- After any history of sent requests, responses, failures and reaps, an accepted response carries
-- the identity of a request that was sent under its key, to the peer that answered, on the domain
-- of its protocol, and the two have one subject: the same protocol, operation and identity.
pub accepted-Filed :
    (es : List Event) (key : OutboundKey) (peer : ℕ) (response : ShardResponseVersioned)
    (origin : OutboundOrigin)
    → (correlate_response (run [] es) key peer response).1 ≡ ok origin
    → Filed key peer origin.kind es
      × (origin.peer ≡ peer)
      × (request_subject origin.kind ≡ response_subject response)
unfolding new_origin lookup
accepted-Filed es key peer response origin e =
    let (request, found, same, answers, own) =
      (correlate_response-ok_iff (run [] es) key peer response origin).0 e in
    let kind : request.kind ≡ origin.kind = ap (λ o. o.kind) (sym own) in
    elim (run-pending [] es key request tt found) [
      | inl nothing ↦ absurd (none-ne-some nothing)
      | inr sent ↦ (
        subst₂ (λ q k. Filed key q k es) same kind sent,
        ap (λ o. o.peer) own,
        (check_iff origin.kind response).0 (subst (λ k. check k response ≡ ok tt) kind answers),
      )
    ]
