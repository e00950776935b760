-- ===== src/Correlation/Poisoning.antt =====
-- A key that two requests claimed: no response under it is accepted while the poison lasts.
use storage_node_interface_p.Prelude.{
  ℕ, ◌+◌, ◌<◌, ◌≤◌, true, ◌&&◌, ◌≡◌, refl, ap, ◌∙◌, Option, some, none, List, [], ◌∷◌, arith,
  if◌then◌else◌, err, Bool-cases, inl, inr, All, lt→ltb,
}
use storage_node_interface_p.Prelude.Eq.{◌==◌, nat_eq, list_eq, list_beq_iff, ==_refl}
use storage_node_interface_p.Prelude.Assoc.{lookup, IsMap}
use storage_node_interface_p.Codec.{ShardResponseVersioned}
use storage_node_interface_p.Correlation.{
  OutboundKey, key_eq, key_beq_iff, OutboundRequestKind, kind_protocol, kind_label, domain_protocol,
  poisoned_request_id,
}
use storage_node_interface_p.Correlation.Tracker.{
  OutboundTracker, Poison, Slot, pending, poisoned, first_label, record_outbound,
  correlate_response, is_fresh, poison_ttl,
}
use storage_node_interface_p.Correlation.Slots.{
  filed, is_pending, lookup-record_outbound, lookup-correlate_response, lookup-on_failure,
  lookup-reap, record_outbound-IsMap,
}
use storage_node_interface_p.Correlation.Traces.{
  Event, records, responds, fails, reaps, step, run, step-IsMap, run-IsMap,
}

fresh_poison :
    (at ttl : ℕ) (p : Poison) → at < p.at + poison_ttl → is_fresh at ttl (poisoned p) ≡ true
unfolding is_fresh
fresh_poison at ttl p h = lt→ltb _ _ (omega arith)

-- Requests are sent no earlier than `now`, and the reaper runs before the poison of `now` is stale.
abbrev pub Within : ℕ → Event → Type 0
Within now (records key peer kind at) = now ≤ at
Within now (responds key peer response) = Unit {0}
Within now (fails key) = Unit {0}
Within now (reaps at ttl) = at < now + poison_ttl

-- The key is poisoned, and no earlier than `now`.
abbrev pub PoisonedSince : ℕ → Option Slot → Type 0
PoisonedSince now none = ⊥
PoisonedSince now (some (pending request)) = ⊥
PoisonedSince now (some (poisoned p)) = now ≤ p.at

PoisonedSince-slot :
    (now : ℕ) (o : Option Slot)
    → PoisonedSince now o
    → (p : Poison) × (o ≡ some (poisoned p)) × (now ≤ p.at)
PoisonedSince-slot now none h = absurd h
PoisonedSince-slot now (some (pending request)) h = absurd h
PoisonedSince-slot now (some (poisoned p)) h = (p, refl, h)

slot-PoisonedSince :
    (now : ℕ) (o : Option Slot) (p : Poison)
    → o ≡ some (poisoned p)
    → now ≤ p.at
    → PoisonedSince now o
slot-PoisonedSince now o p e h = rw e h

-- A terminal event leaves a poisoned slot.
unspent-poisoned :
    (slots : OutboundTracker) (k key : OutboundKey) (p : Poison)
    → lookup key slots ≡ some (poisoned p)
    → (if k == key && is_pending (lookup k slots) then none else lookup key slots)
      ≡ some (poisoned p)
unspent-poisoned slots k key p e = ground (arith, key_beq_iff k key)

filed-poisoned :
    (key : OutboundKey) (peer : ℕ) (kind : OutboundRequestKind) (at now : ℕ) (p : Poison)
    → now ≤ at
    → now ≤ p.at
    → PoisonedSince now (filed key peer kind at (some (poisoned p)))
filed-poisoned key peer kind at now p h k =
    elim (Bool-cases (kind_protocol kind == domain_protocol key.domain)) [
      | inr wrong ↦ rw wrong k
      | inl agrees ↦ rw agrees h
    ]

step-PoisonedSince :
    (slots : OutboundTracker) (e : Event) (key : OutboundKey) (now : ℕ)
    → IsMap slots
    → Within now e
    → PoisonedSince now (lookup key slots)
    → PoisonedSince now (lookup key (step slots e))
unfolding step
step-PoisonedSince slots (records k peer kind at) key now m w h =
    let (p, found, since) = PoisonedSince-slot now (lookup key slots) h in
    elim (Bool-cases (k == key)) [
      | inr other ↦ rw (lookup-record_outbound slots k peer kind at key, other) h
      | inl hit ↦
          let same : lookup k slots ≡ some (poisoned p) =
            ap (λ j. lookup j slots) ((key_beq_iff k key).0 hit) ∙ found in
          rw (lookup-record_outbound slots k peer kind at key, hit, same)
            (filed-poisoned k peer kind at now p w since)
    ]
step-PoisonedSince slots (responds k peer response) key now m w h =
    let (p, found, since) = PoisonedSince-slot now (lookup key slots) h in
    slot-PoisonedSince now _ p
      (lookup-correlate_response slots k peer response key ∙ unspent-poisoned slots k key p found)
      since
step-PoisonedSince slots (fails k) key now m w h =
    let (p, found, since) = PoisonedSince-slot now (lookup key slots) h in
    slot-PoisonedSince now _ p
      (lookup-on_failure slots k key ∙ unspent-poisoned slots k key p found) since
step-PoisonedSince slots (reaps at ttl) key now m w h =
    let (p, found, since) = PoisonedSince-slot now (lookup key slots) h in
    slot-PoisonedSince now _ p
      (lookup-reap slots at ttl key m ∙ rw found (rw (fresh_poison at ttl p (omega arith)))) since

run-PoisonedSince :
    (slots : OutboundTracker) (es : List Event) (key : OutboundKey) (now : ℕ)
    → IsMap slots
    → All (Within now) es
    → PoisonedSince now (lookup key slots)
    → PoisonedSince now (lookup key (run slots es))
unfolding run
run-PoisonedSince slots [] key now m w h = h
run-PoisonedSince slots (e ∷ es) key now m w h =
    run-PoisonedSince (step slots e) es key now (step-IsMap slots e m) w.1
      (step-PoisonedSince slots e key now m w.0 h)

-- When a request on the right domain is recorded under a taken key, every later response under
-- that key is refused as poisoned, through any events in which time does not go back and no reap
-- comes `poison_ttl` or more after the collision.
pub collision-refused :
    (before after : List Event) (key : OutboundKey) (peer : ℕ) (kind : OutboundRequestKind)
    (now : ℕ) (slot : Slot) (later : ℕ) (response : ShardResponseVersioned)
    → lookup key (run [] before) ≡ some slot
    → kind_protocol kind ≡ domain_protocol key.domain
    → All (Within now) after
    → (first : List ℕ) × (second : List ℕ) × ((correlate_response
          (run (record_outbound (run [] before) key peer kind now).0 after)
          key
          later
          response).1
        ≡ err (poisoned_request_id first second))
unfolding correlate_response
collision-refused before after key peer kind now slot later response found fits w =
    let slots = run [] before in
    let collided = (record_outbound slots key peer kind now).0 in
    let poison : Poison = record { at = now; first = first_label slot; second = kind_label kind } in
    let taken =
      slot-PoisonedSince now (lookup key collided) poison
        (lookup-record_outbound slots key peer kind now key
          ∙ rw (==_refl key, found, (list_beq_iff _ _).1 fits))
        (omega arith) in
    let (p, kept, since) = PoisonedSince-slot now _ (
      run-PoisonedSince collided after key now
        (record_outbound-IsMap slots key peer kind now (run-IsMap [] before tt)) w taken) in
    (p.first, p.second, ground arith)
