-- ===== src/Nat.antt =====
-- crates/sum-net/src/nat.rs: the node's reachability and its reservation with a relay.
-- A peer is the number that its identity spells. The swarm's answer to `listen_on` is a parameter.
-- The relay candidates are a map, searched in the order of its list. What is sent on the event
-- channel is the list of the events offered to it.
pub mod Reservation
pub mod Retry
mod Examples
use storage_node_interface_p.Prelude.{
  ℕ, Bool, true, false, ◌&&◌, not, Option, none, some, List, [], ◌∷◌, ◌++◌, length, nat_beq,
  if◌then◌else◌, any_by, filter_by,
}
use storage_node_interface_p.Prelude.Eq.{nat_eq}
use storage_node_interface_p.Prelude.Assoc.{Assoc}
use storage_node_interface_p.Multiaddr.{Protocol, p2p, p2p_circuit, Multiaddr, is_p2p, has_circuit}

pub data NatStatus : Type 0 where
  unknown : NatStatus
  public : Multiaddr → NatStatus
  private : NatStatus

pub record RelayCandidate : Type 0 where
  pub addrs : List Multiaddr
  pub confirmed : Bool

-- `unreserved` is the variant `None`.
pub data RelayReservationState : Type 0 where
  unreserved : RelayReservationState
  pending : ℕ → RelayReservationState
  active : ℕ → RelayReservationState

unfoldable pub is_busy : RelayReservationState → Bool
is_busy unreserved = false
is_busy (pending p) = true
is_busy (active p) = true

unfoldable pub peer : RelayReservationState → Option ℕ
peer unreserved = none
peer (pending p) = some p
peer (active p) = some p

unfoldable pub mark_pending : ℕ → RelayReservationState → RelayReservationState
mark_pending p state = pending p

unfoldable pub mark_active : ℕ → RelayReservationState → RelayReservationState
mark_active p unreserved = unreserved
mark_active p (pending q) = if nat_beq q p then active p else pending q
mark_active p (active q) = active q

unfoldable pub reset : RelayReservationState → RelayReservationState
reset state = unreserved

pub data SumNetEvent : Type 0 where
  -- is_public and public_addr
  nat_status_changed : Bool → Option Multiaddr → SumNetEvent
  -- relay_peer_id and relay_addr
  relay_reservation : ℕ → Multiaddr → SumNetEvent

-- What an event changes, and the events that it offers to the channel.
pub record Node : Type 0 where
  pub nat_status : NatStatus
  pub reservation : RelayReservationState
  pub sent : List SumNetEvent

unfoldable pub build_circuit_listen_addr : Multiaddr → ℕ → Multiaddr
build_circuit_listen_addr base relay_peer =
    if has_circuit base
    then base
    else filter_by (λ proto. not (is_p2p proto)) base ++ (p2p relay_peer ∷ p2p_circuit ∷ [])

-- The loop over the bases, with whether the swarm takes each address.
unfoldable pub request_relay_reservation : (Multiaddr → Bool) → ℕ → List Multiaddr → Bool
request_relay_reservation listen_on relay_peer [] = false
request_relay_reservation listen_on relay_peer (base ∷ bases) =
    if listen_on (build_circuit_listen_addr base relay_peer)
    then true
    else request_relay_reservation listen_on relay_peer bases

unfoldable pub is_eligible : RelayCandidate → Bool
is_eligible c = c.confirmed && not (nat_beq (length c.addrs) 0)

-- `iter().find(…)`
unfoldable pub find_candidate : Assoc ℕ RelayCandidate → Option (ℕ × RelayCandidate)
find_candidate [] = none
find_candidate ((p, c) ∷ relay_peers) =
    if is_eligible c then some (p, c) else find_candidate relay_peers

-- The private arm, once no reservation is held.
unfoldable pub try_reserve :
    (Multiaddr → Bool) → Assoc ℕ RelayCandidate → RelayReservationState → RelayReservationState
try_reserve listen_on relay_peers state = elim (find_candidate relay_peers) [
  | none ↦ state
  | some (relay_peer, candidate) ↦
      if request_relay_reservation listen_on relay_peer candidate.addrs
      then mark_pending relay_peer state
      else state
]

-- The status that an `autonat::Event::StatusChanged` reports; `none` is any other event.
unfoldable pub handle_autonat_event :
    Option NatStatus → Assoc ℕ RelayCandidate → (Multiaddr → Bool) → Node → Node
handle_autonat_event none relay_peers listen_on n = n
handle_autonat_event (some (public addr)) relay_peers listen_on n = record {
  nat_status = public addr;
  reservation = reset n.reservation;
  sent = n.sent ++ (nat_status_changed true (some addr) ∷ []);
}
handle_autonat_event (some private) relay_peers listen_on n = record {
  nat_status = private;
  reservation =
      if is_busy n.reservation
      then n.reservation
      else try_reserve listen_on relay_peers n.reservation;
  sent = n.sent ++ (nat_status_changed false none ∷ []);
}
handle_autonat_event (some unknown) relay_peers listen_on n = record {
  nat_status = unknown;
  reservation = n.reservation;
  sent = n.sent;
}

-- The peer of a `ReservationReqAccepted`; `none` is any other event.
unfoldable pub handle_relay_client_event : Option ℕ → Node → Node
handle_relay_client_event none n = n
handle_relay_client_event (some relay_peer_id) n = record {
  nat_status = n.nat_status;
  reservation = mark_active relay_peer_id n.reservation;
  sent = n.sent ++ (relay_reservation relay_peer_id (p2p relay_peer_id ∷ p2p_circuit ∷ []) ∷ []);
}

-- The new state, and whether it was reset.
unfoldable pub handle_listener_closed_for_reservation :
    List Multiaddr → RelayReservationState → RelayReservationState × Bool
handle_listener_closed_for_reservation closed_addrs state =
    if any_by has_circuit closed_addrs && is_busy state then (reset state, true) else (state, false)
