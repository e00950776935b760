-- ===== src/PeerState.antt =====
-- crates/sum-node/src/peer_state.rs: the map from a peer to its L1 address, moved by network events.
-- A peer id is a number; the variants of `SumNetEvent` that the match does not name are `other`.
pub mod Tracks
mod Examples
use storage_node_interface_p.Prelude.{ℕ, Option, none, some, List, [], ◌∷◌}
use storage_node_interface_p.Prelude.Eq.{nat_eq}
use storage_node_interface_p.Prelude.Assoc.{Assoc, lookup, insert, remove}
use storage_node_interface_p.Merkle.{Bytes}

pub data PeerMapChange : Type 0 where
  inserted : PeerMapChange
  removed : PeerMapChange
  unchanged : PeerMapChange

pub data SumNetEvent : Type 0 where
  -- peer_id and l1_address
  peer_identified : ℕ → Bytes → SumNetEvent
  peer_disconnected : ℕ → SumNetEvent
  other : SumNetEvent

unfoldable pub apply_peer_event : Assoc ℕ Bytes → SumNetEvent → Assoc ℕ Bytes × PeerMapChange
apply_peer_event m (peer_identified peer_id l1_address) = (insert peer_id l1_address m, inserted)
apply_peer_event m (peer_disconnected peer_id) = elim (lookup peer_id m) [
  | none ↦ (remove peer_id m, unchanged)
  | some address ↦ (remove peer_id m, removed)
]
apply_peer_event m other = (m, unchanged)
