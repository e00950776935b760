-- ===== src/Correlation/Awaited.antt =====
-- A request on a free key waits for its answer: what is accepted under the key.
use storage_node_interface_p.Prelude.{
  ℕ, ◌+◌, ◌<◌, true, ◌≡◌, ◌≢◌, ◌↔◌, sym, ap, ◌∙◌, none, some, List, [], ◌∷◌, arith, ok, All, lt→ltb,
  subst,
}
use storage_node_interface_p.Prelude.Eq.{nat_eq, list_eq, list_beq_iff, ==_refl}
use storage_node_interface_p.Prelude.Assoc.{lookup, IsMap}
use storage_node_interface_p.Codec.{ShardResponseVersioned}
use storage_node_interface_p.Correlation.{
  OutboundKey, key_eq, key_beq_iff, OutboundRequestKind, OutboundOrigin, new_origin, check,
  kind_protocol, domain_protocol,
}
use storage_node_interface_p.Correlation.Answers.{request_subject, response_subject, check_iff}
use storage_node_interface_p.Correlation.Tracker.{
  OutboundTracker, PendingOutbound, pending, record_outbound, correlate_response, is_fresh,
}
use storage_node_interface_p.Correlation.Slots.{
  lookup-record_outbound, lookup-correlate_response, lookup-on_failure, lookup-reap,
  record_outbound-IsMap, correlate_response-ok_iff,
}
use storage_node_interface_p.Correlation.Traces.{
  Event, records, responds, fails, reaps, step, run, step-IsMap, run-IsMap, pending-injective,
}

-- The event is under another key, or it is a reap before a request of `now` is stale.
abbrev pub Leaves : OutboundKey → ℕ → Event → Type 0
Leaves key now (records k peer kind at) = k ≢ key
Leaves key now (responds k peer response) = k ≢ key
Leaves key now (fails k) = k ≢ key
Leaves key now (reaps at ttl) = (0 < ttl) × (at < now + ttl)

fresh_request :
    (at ttl : ℕ) (request : PendingOutbound)
    → 0 < ttl
    → at < request.issued_at + ttl
    → is_fresh at ttl (pending request) ≡ true
unfolding is_fresh
fresh_request at ttl request p h = lt→ltb _ _ (omega arith)

module _ (key : OutboundKey) (request : PendingOutbound) where
  step-awaits :
      (slots : OutboundTracker) (e : Event)
      → IsMap slots
      → Leaves key request.issued_at e
      → lookup key slots ≡ some (pending request)
      → lookup key (step slots e) ≡ some (pending request)
  unfolding step
  step-awaits slots (records k peer kind at) m w h =
      ground (arith, lookup-record_outbound slots k peer kind at key, key_beq_iff k key)
  step-awaits slots (responds k peer response) m w h =
      ground (arith, lookup-correlate_response slots k peer response key, key_beq_iff k key)
  step-awaits slots (fails k) m w h =
      ground (arith, lookup-on_failure slots k key, key_beq_iff k key)
  step-awaits slots (reaps at ttl) m w h =
      lookup-reap slots at ttl key m ∙ rw h (rw (fresh_request at ttl request w.0 w.1))

  run-awaits :
      (slots : OutboundTracker) (es : List Event)
      → IsMap slots
      → All (Leaves key request.issued_at) es
      → lookup key slots ≡ some (pending request)
      → lookup key (run slots es) ≡ some (pending request)
  unfolding run
  run-awaits slots [] m w h = h
  run-awaits slots (e ∷ es) m w h =
      run-awaits (step slots e) es (step-IsMap slots e m) w.1 (step-awaits slots e m w.0 h)

-- When a request is sent on its domain under a key that is free after any history, then through any
-- events that are under other keys, or are reaps before the request is stale, a response under the
-- key is accepted with an origin exactly when it comes from the peer that was asked, has the
-- request's subject (the same protocol, operation and identity), and the origin is that peer and
-- that request on its protocol.
pub awaited-accepted_iff :
    (before after : List Event) (key : OutboundKey) (peer : ℕ) (kind : OutboundRequestKind)
    (now later : ℕ) (response : ShardResponseVersioned) (origin : OutboundOrigin)
    → lookup key (run [] before) ≡ none
    → kind_protocol kind ≡ domain_protocol key.domain
    → All (Leaves key now) after
    → ((correlate_response
          (run (record_outbound (run [] before) key peer kind now).0 after)
          key
          later
          response).1
        ≡ ok origin)
      ↔ ((later ≡ peer)
          × (request_subject kind ≡ response_subject response)
          × (origin ≡ record { peer = peer; protocol = kind_protocol kind; kind = kind }))
unfolding new_origin
awaited-accepted_iff before after key peer kind now later response origin free fits w =
    let slots = run [] before in
    let sent = (record_outbound slots key peer kind now).0 in
    let request : PendingOutbound = record { peer = peer; kind = kind; issued_at = now } in
    let filed_here : lookup key sent ≡ some (pending request) =
      lookup-record_outbound slots key peer kind now key
      ∙ rw (==_refl key, free, (list_beq_iff _ _).1 fits) in
    let held =
      run-awaits key request sent after
        (record_outbound-IsMap slots key peer kind now (run-IsMap [] before tt)) w filed_here in
    let accepts = correlate_response-ok_iff (run sent after) key later response origin in
    (
      λ e.
          let (r, found, same, answers, own) = accepts.0 e in
          let this : r ≡ request = pending-injective (sym found ∙ held) in
          let asked : later ≡ peer = sym same ∙ ap (λ q. q.peer) this in
          (
            asked,
            (check_iff kind response).0 (subst (λ q. check q.kind response ≡ ok tt) this answers),
            own ∙ ap (λ q. new_origin later q.kind) this ∙ ap (λ p. new_origin p kind) asked,
          ),
      λ h. accepts.1 (
        request,
        held,
        sym h.0,
        (check_iff kind response).1 h.1,
        h.2 ∙ ap (λ p. new_origin p kind) (sym h.0),
      ),
    )
