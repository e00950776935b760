-- ===== src/Correlation/Examples.antt =====
-- Concrete histories of requests and responses.
use storage_node_interface_p.Prelude.{
  ℕ, ◌≡◌, ◌≢◌, ◌↔◌, refl, none, some, List, [], ◌∷◌, ok, err, arith,
}
use storage_node_interface_p.Prelude.Eq.{nat_eq, list_eq}
use storage_node_interface_p.Prelude.Assoc.{lookup, insert, remove, IsMap}
use storage_node_interface_p.Text.{text}
use storage_node_interface_p.Codec.{ShardResponseVersioned, v1}
use storage_node_interface_p.Correlation.{
  OutboundKey, key_eq, shard_xfer_v1, shard_xfer_v2, OutboundRequestKind, v1_chunk, v1_push,
  v2_pull, kind_protocol, new_origin, poisoned_request_id, check, cid_eq,
}
use storage_node_interface_p.Correlation.Tracker.{
  OutboundTracker, PendingOutbound, pending, record_outbound, correlate_response, accept,
}
use storage_node_interface_p.Correlation.Slots.{correlate_response_once}
use storage_node_interface_p.Correlation.Traces.{
  Event, records, reaps, step, run, Filed, accepted-Filed,
}
use storage_node_interface_p.Correlation.Poisoning.{collision-refused}
use storage_node_interface_p.Correlation.Answers.{request_subject, response_subject}
use storage_node_interface_p.Correlation.Awaited.{awaited-accepted_iff}

abbrev key : OutboundKey
key = record { domain = shard_xfer_v1; id = 4 }

abbrev other_key : OutboundKey
other_key = record { domain = shard_xfer_v2; id = 4 }

abbrev asks : OutboundRequestKind
asks = v1_chunk (text "abc")

abbrev asks_again : OutboundRequestKind
asks_again = v1_push (text "xyz")

abbrev answer : ShardResponseVersioned
answer =
    v1
      (record { cid = text "abc"; offset = 0; total_bytes = 2; payload = 1 ∷ 2 ∷ []; error = none })

-- One chunk request, to peer 7.
abbrev history : List Event
history = records key 7 asks 0 ∷ []

abbrev sent : OutboundTracker
sent = run [] history

abbrev request : PendingOutbound
request = record { peer = 7; kind = asks; issued_at = 0 }

-- The answer from the peer that was asked, and from another.
answered : (correlate_response sent key 7 answer).1 ≡ ok (new_origin 7 asks)
unfolding run step record_outbound correlate_response lookup insert remove accept check cid_eq
    new_origin
answered = refl

held : lookup key sent ≡ some (pending request)
unfolding run step record_outbound lookup insert remove
held = refl

sent-IsMap : IsMap sent
unfolding run step record_outbound lookup insert remove
sent-IsMap = (refl, tt)

-- Another request in between, and a reap within the time that requests have.
abbrev meanwhile : List Event
meanwhile = records other_key 9 (v2_pull (text "xyz")) 5 ∷ reaps 1_000 60_000 ∷ []

nothing_held : lookup key (run [] []) ≡ none
unfolding run lookup
nothing_held = refl

other_key-ne-key : other_key ≢ key
other_key-ne-key e = cc

awaited-accepted_iff_example :
    ((correlate_response
        (run (record_outbound (run [] []) key 7 asks 0).0 meanwhile)
        key
        7
        answer).1
      ≡ ok (new_origin 7 asks))
    ↔ ((◌≡◌ {A = ℕ} 7 7)
        × (request_subject asks ≡ response_subject answer)
        × (new_origin 7 asks ≡ record { peer = 7; protocol = kind_protocol asks; kind = asks }))
awaited-accepted_iff_example =
    awaited-accepted_iff [] meanwhile key 7 asks 0 7 answer (new_origin 7 asks) nothing_held refl
      (other_key-ne-key, ((omega arith, omega arith), tt))

correlate_response_once_example :
    (correlate_response (correlate_response sent key 7 answer).0 key 7 answer).1
    ≢ ok (new_origin 7 asks)
correlate_response_once_example =
    correlate_response_once sent key 7 7 answer answer (new_origin 7 asks)

accepted-Filed_example :
    Filed key 7 (new_origin 7 asks).kind history
    × ((new_origin 7 asks).peer ≡ 7)
    × (request_subject (new_origin 7 asks).kind ≡ response_subject answer)
accepted-Filed_example = accepted-Filed history key 7 answer (new_origin 7 asks) answered

-- A second request under the key, then a reap within the ten minutes, then the first answer.
collision-refused_example :
    (first : List ℕ) × (second : List ℕ) × ((correlate_response
        (run (record_outbound sent key 9 asks_again 5).0 (reaps 1_000 0 ∷ []))
        key
        7
        answer).1
      ≡ err (poisoned_request_id first second))
collision-refused_example =
    collision-refused history (reaps 1_000 0 ∷ []) key 9 asks_again 5 (pending request) 7 answer
      held refl (omega arith, tt)
