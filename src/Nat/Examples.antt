-- ===== src/Nat/Examples.antt =====
-- A node behind a NAT that reserves on the one confirmed relay, and loses the reservation.
use storage_node_interface_p.Prelude.{ℕ, ◌≡◌, refl, true, false, some, List, [], ◌∷◌}
use storage_node_interface_p.Prelude.Assoc.{Assoc}
use storage_node_interface_p.Multiaddr.{
  ip4, tcp, p2p, p2p_circuit, Multiaddr, is_p2p, is_circuit, has_circuit,
}
use storage_node_interface_p.Nat.{
  private, RelayCandidate, pending, active, build_circuit_listen_addr, request_relay_reservation,
  is_eligible, find_candidate, try_reserve, handle_autonat_event, handle_relay_client_event,
  mark_pending, mark_active, is_busy,
}
use storage_node_interface_p.Nat.Reservation.{
  SwarmEvent, autonat, relay_client, listener_closed, handle_event, after, AcceptedSince,
  after-Explains,
}
use storage_node_interface_p.Nat.Retry.{after-pending}

abbrev base : Multiaddr
base = ip4 16909060 ∷ tcp 4001 ∷ []

-- Peer 1 is a bootstrap peer only.
abbrev relays : Assoc ℕ RelayCandidate
relays =
    (1, record { addrs = base ∷ []; confirmed = false })
    ∷ (2, record { addrs = base ∷ []; confirmed = true })
    ∷ []

abbrev tells : SwarmEvent
tells = autonat (some private) relays (λ addr. true)

-- The latest event first.
abbrev accepted : List SwarmEvent
accepted = relay_client (some 2) ∷ tells ∷ []

accepted_active : (after accepted).reservation ≡ active 2
unfolding after handle_event handle_autonat_event handle_relay_client_event try_reserve
    find_candidate is_eligible request_relay_reservation mark_pending mark_active is_busy
accepted_active = refl

circuit : build_circuit_listen_addr base 2 ≡ ip4 16909060 ∷ tcp 4001 ∷ p2p 2 ∷ p2p_circuit ∷ []
unfolding build_circuit_listen_addr has_circuit is_circuit is_p2p
circuit = refl

after-Explains_example : AcceptedSince 2 accepted
unfolding after handle_event handle_autonat_event handle_relay_client_event try_reserve
    find_candidate is_eligible request_relay_reservation mark_pending mark_active is_busy
after-Explains_example = after-Explains accepted

abbrev closed : SwarmEvent
closed = listener_closed ((p2p 2 ∷ p2p_circuit ∷ []) ∷ [])

after-pending_example :
    (p : ℕ) × ((after (tells ∷ relay_client (some 2) ∷ closed ∷ accepted)).reservation ≡ pending p)
unfolding has_circuit is_circuit is_eligible
after-pending_example =
    after-pending (relay_client (some 2) ∷ []) accepted closed relays (λ addr. true) refl refl refl
      (λ addr. refl)
