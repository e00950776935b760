-- ===== src/Nat/Retry.antt =====
-- A node that lost its reservation asks for one again.
use storage_node_interface_p.Prelude.{
  ℕ, ◌≡◌, refl, ◌⊎◌, inl, inr, Bool, true, false, none, some, List, [], ◌∷◌, ◌++◌, length, nat_beq,
  any_by, Bool-cases, arith,
}
use storage_node_interface_p.Prelude.Assoc.{Assoc}
use storage_node_interface_p.Multiaddr.{Multiaddr, has_circuit}
use storage_node_interface_p.Nat.{
  unknown, public, private, RelayCandidate, RelayReservationState, unreserved, pending, active,
  is_busy, mark_pending, mark_active, reset, Node, build_circuit_listen_addr,
  request_relay_reservation, is_eligible, find_candidate, try_reserve, handle_autonat_event,
  handle_relay_client_event, handle_listener_closed_for_reservation,
}
use storage_node_interface_p.Nat.Reservation.{
  SwarmEvent, autonat, relay, relay_client, listener_closed, handle_event, after, releases,
}

-- Some candidate is confirmed and has an address.
abbrev pub has_relay : Assoc ℕ RelayCandidate → Bool
has_relay relay_peers = any_by (λ q. is_eligible q.1) relay_peers

abbrev pub tells_private : SwarmEvent → Bool
tells_private (autonat (some private) relay_peers listen_on) = true
tells_private _ = false

find_candidate-some :
    (relay_peers : Assoc ℕ RelayCandidate)
    → has_relay relay_peers ≡ true
    → (p : ℕ) × (c : RelayCandidate) × (find_candidate relay_peers ≡ some (p, c))
      × (is_eligible c ≡ true)
unfolding find_candidate
find_candidate-some [] h = absurd (cc)
find_candidate-some ((p, c) ∷ relay_peers) h = elim (Bool-cases (is_eligible c)) [
  | inl here ↦ (p, c, ground (arith, here), here)
  | inr skip ↦
      let (q, d, found, good) = find_candidate-some relay_peers (ground (arith, skip)) in
      (q, d, ground (arith, skip, found), good)
]

closed-unreserved :
    (closed_addrs : List Multiaddr) (state : RelayReservationState)
    → (any_by has_circuit closed_addrs ≡ true) ⊎ (state ≡ unreserved)
    → (handle_listener_closed_for_reservation closed_addrs state).0 ≡ unreserved
unfolding handle_listener_closed_for_reservation is_busy reset
closed-unreserved closed_addrs unreserved w = ground arith
closed-unreserved closed_addrs (pending p) w = ground (arith, w)
closed-unreserved closed_addrs (active p) w = ground (arith, w)

request_relay_reservation-taken :
    (listen_on : Multiaddr → Bool) (p : ℕ) (bases : List Multiaddr)
    → ((addr : Multiaddr) → listen_on addr ≡ true)
    → nat_beq (length bases) 0 ≡ false
    → request_relay_reservation listen_on p bases ≡ true
unfolding request_relay_reservation
request_relay_reservation-taken listen_on p [] takes more = absurd (cc)
request_relay_reservation-taken listen_on p (base ∷ bases) takes more =
    ground (arith, takes (build_circuit_listen_addr base p))

-- A release leaves no reservation, and without one only a private status makes one.
released-unreserved :
    (e : SwarmEvent) (n : Node)
    → (releases e ≡ true) ⊎ ((tells_private e ≡ false) × (n.reservation ≡ unreserved))
    → (handle_event e n).reservation ≡ unreserved
unfolding handle_event handle_autonat_event handle_relay_client_event reset mark_active
    handle_listener_closed_for_reservation is_busy
released-unreserved (autonat none relay_peers listen_on) n w = ground (arith, w)
released-unreserved (autonat (some unknown) relay_peers listen_on) n w = ground (arith, w)
released-unreserved (autonat (some (public addr)) relay_peers listen_on) n w = refl
released-unreserved (autonat (some private) relay_peers listen_on) n w = ground (arith, w)
released-unreserved relay n w = ground (arith, w)
released-unreserved (relay_client none) n w = ground (arith, w)
released-unreserved (relay_client (some q)) n w = ground (arith, w)
released-unreserved (listener_closed closed_addrs) n w =
    closed-unreserved closed_addrs n.reservation (ground (arith, w))

after-unreserved :
    (between earlier : List SwarmEvent) (gone : SwarmEvent)
    → releases gone ≡ true
    → any_by tells_private between ≡ false
    → (after (between ++ (gone ∷ earlier))).reservation ≡ unreserved
unfolding after
after-unreserved [] earlier gone rel calm = released-unreserved gone (after earlier) (inl rel)
after-unreserved (e ∷ between) earlier gone rel calm =
    released-unreserved e (after (between ++ (gone ∷ earlier)))
      (inr (ground (arith, calm), after-unreserved between earlier gone rel (ground (arith, calm))))

-- After the node turned out public or a circuit listener closed, and any events that do not tell
-- that it is private, the next event that does makes a reservation pending, if a confirmed
-- candidate has an address and the swarm takes every address.
pub after-pending :
    (between earlier : List SwarmEvent) (gone : SwarmEvent) (relay_peers : Assoc ℕ RelayCandidate)
    (listen_on : Multiaddr → Bool)
    → releases gone ≡ true
    → any_by tells_private between ≡ false
    → has_relay relay_peers ≡ true
    → ((addr : Multiaddr) → listen_on addr ≡ true)
    → (p : ℕ) × ((after
          (autonat (some private) relay_peers listen_on ∷ between ++ (gone ∷ earlier))).reservation
        ≡ pending p)
unfolding after handle_event handle_autonat_event try_reserve is_eligible mark_pending is_busy
after-pending between earlier gone relay_peers listen_on rel calm some_relay takes =
    let (p, c, found, good) = find_candidate-some relay_peers some_relay in
    let free = after-unreserved between earlier gone rel calm in
    let taken = request_relay_reservation-taken listen_on p c.addrs takes (ground (arith, good)) in
    (p, ground (arith, free, found, taken))
