-- ===== src/PeerState/Tracks.antt =====
-- What the map holds after a history of events.
use storage_node_interface_p.Prelude.{
  ℕ, ◌≡◌, refl, ap, sym, ◌∙◌, Option, none, some, List, [], ◌∷◌, arith, nat_beq, if◌then◌else◌,
}
use storage_node_interface_p.Prelude.Eq.{nat_eq}
use storage_node_interface_p.Prelude.Assoc.{Assoc, lookup, lookup-insert, lookup-remove}
use storage_node_interface_p.Merkle.{Bytes}
use storage_node_interface_p.PeerState.{
  SumNetEvent, peer_identified, peer_disconnected, other, apply_peer_event,
}

-- The map after the events, oldest first.
unfoldable pub apply_all : Assoc ℕ Bytes → List SumNetEvent → Assoc ℕ Bytes
apply_all m [] = m
apply_all m (event ∷ rest) = apply_all (apply_peer_event m event).0 rest

-- The last word that the events have on a peer, from what was known before.
unfoldable pub last_word : ℕ → Option Bytes → List SumNetEvent → Option Bytes
last_word peer known [] = known
last_word peer known (peer_identified p address ∷ rest) =
    last_word peer (if nat_beq p peer then some address else known) rest
last_word peer known (peer_disconnected p ∷ rest) =
    last_word peer (if nat_beq p peer then none else known) rest
last_word peer known (other ∷ rest) = last_word peer known rest

lookup-apply_peer_event :
    (m : Assoc ℕ Bytes) (event : SumNetEvent) (peer : ℕ)
    → lookup peer (apply_peer_event m event).0 ≡ last_word peer (lookup peer m) (event ∷ [])
unfolding apply_peer_event last_word
lookup-apply_peer_event m (peer_identified p address) peer = lookup-insert p peer address m
lookup-apply_peer_event m (peer_disconnected p) peer = ground (arith, lookup-remove p peer m)
lookup-apply_peer_event m other peer = refl

last_word-cons :
    (peer : ℕ) (known : Option Bytes) (event : SumNetEvent) (rest : List SumNetEvent)
    → last_word peer known (event ∷ rest) ≡ last_word peer (last_word peer known (event ∷ [])) rest
unfolding last_word
last_word-cons peer known (peer_identified p address) rest = refl
last_word-cons peer known (peer_disconnected p) rest = refl
last_word-cons peer known other rest = refl

-- After any events the map gives for a peer the address of its last identification, or none if the
-- peer disconnected since, and what it gave before if no event is about the peer.
pub lookup-apply_all :
    (m : Assoc ℕ Bytes) (events : List SumNetEvent) (peer : ℕ)
    → lookup peer (apply_all m events) ≡ last_word peer (lookup peer m) events
unfolding apply_all last_word
lookup-apply_all m [] peer = refl
lookup-apply_all m (event ∷ rest) peer =
    lookup-apply_all (apply_peer_event m event).0 rest peer
    ∙ ap (λ known. last_word peer known rest) (lookup-apply_peer_event m event peer)
    ∙ sym (last_word-cons peer (lookup peer m) event rest)
