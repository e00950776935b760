-- ===== src/PeerState/Examples.antt =====
-- A peer that is identified, leaves, and comes back with another address.
use storage_node_interface_p.Prelude.{◌≡◌, refl, none, some, List, [], ◌∷◌}
use storage_node_interface_p.Prelude.Eq.{nat_eq}
use storage_node_interface_p.PeerState.{SumNetEvent, peer_identified, peer_disconnected, other}
use storage_node_interface_p.PeerState.Tracks.{last_word}

abbrev visits : List SumNetEvent
visits = peer_identified 3 (1 ∷ []) ∷ peer_disconnected 3 ∷ other ∷ peer_identified 3 (2 ∷ []) ∷ []

visits_end : last_word 3 none visits ≡ some (2 ∷ [])
unfolding last_word
visits_end = refl
