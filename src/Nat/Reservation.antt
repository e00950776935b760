-- ===== src/Nat/Reservation.antt =====
-- The reservation over a history of the swarm's events, as crates/sum-net/src/swarm.rs hands them on.
use storage_node_interface_p.Prelude.{
  ℕ, suc, ◌≡◌, refl, sym, subst, ◌⊎◌, inl, inr, Bool, true, false, Option, none, some, List, [],
  ◌∷◌, get_elem?, nat_beq, if◌then◌else◌, any_by, Option-cases, Bool-cases, arith,
}
use storage_node_interface_p.Prelude.Assoc.{Assoc}
use storage_node_interface_p.Multiaddr.{Multiaddr, has_circuit}
use storage_node_interface_p.Nat.{
  NatStatus, unknown, public, private, RelayCandidate, RelayReservationState, unreserved, pending,
  active, is_busy, mark_pending, mark_active, reset, Node, build_circuit_listen_addr,
  request_relay_reservation, is_eligible, find_candidate, try_reserve, handle_autonat_event,
  handle_relay_client_event, handle_listener_closed_for_reservation,
}

-- The events that reach the reservation. With an AutoNAT event come the candidates known then and
-- what the swarm answers to `listen_on`.
pub data SwarmEvent : Type 0 where
  autonat : Option NatStatus → Assoc ℕ RelayCandidate → (Multiaddr → Bool) → SwarmEvent
  -- a relay server event, of which the handler only writes to the log
  relay : SwarmEvent
  relay_client : Option ℕ → SwarmEvent
  listener_closed : List Multiaddr → SwarmEvent

-- The arm of `ListenerClosed`.
unfoldable pub handle_listener_closed : List Multiaddr → Node → Node
handle_listener_closed closed_addrs n = record {
  nat_status = n.nat_status;
  reservation = (handle_listener_closed_for_reservation closed_addrs n.reservation).0;
  sent = n.sent;
}

unfoldable pub handle_event : SwarmEvent → Node → Node
unfolding handle_listener_closed
handle_event (autonat status relay_peers listen_on) n =
    handle_autonat_event status relay_peers listen_on n
handle_event relay n = n
handle_event (relay_client accepted) n = handle_relay_client_event accepted n
handle_event (listener_closed closed_addrs) n = handle_listener_closed closed_addrs n

-- `NatStatus::Unknown`, no reservation, nothing sent.
abbrev pub start : Node
start = record { nat_status = unknown; reservation = unreserved; sent = [] }

-- The node after the events, of which the first in the list is the latest.
unfoldable pub after : List SwarmEvent → Node
after [] = start
after (e ∷ earlier) = handle_event e (after earlier)

-- The node turned out public, or a circuit listener closed.
abbrev pub releases : SwarmEvent → Bool
releases (autonat (some (public addr)) relay_peers listen_on) = true
releases (listener_closed closed_addrs) = any_by has_circuit closed_addrs
releases _ = false

abbrev pub accepts : ℕ → SwarmEvent → Bool
accepts p (relay_client (some q)) = nat_beq q p
accepts p _ = false

-- At this event the node is private, `p` is a confirmed candidate, and the swarm listens on the
-- circuit through one of its addresses.
abbrev pub Asked : ℕ → SwarmEvent → Type 0
Asked p (autonat (some private) relay_peers listen_on) =
    (c : RelayCandidate) × (i : ℕ) × (base : Multiaddr) × (j : ℕ) × (get_elem? relay_peers i
      ≡ some (p, c))
    × (c.confirmed ≡ true)
    × (get_elem? c.addrs j ≡ some base)
    × (listen_on (build_circuit_listen_addr base p) ≡ true)
Asked p _ = ⊥

abbrev pub AskedSince : ℕ → List SwarmEvent → Type 0
AskedSince p [] = ⊥
AskedSince p (e ∷ earlier) = Asked p e ⊎ ((releases e ≡ false) × AskedSince p earlier)

abbrev pub AcceptedSince : ℕ → List SwarmEvent → Type 0
AcceptedSince p [] = ⊥
AcceptedSince p (e ∷ earlier) =
    ((accepts p e ≡ true) × AskedSince p earlier) ⊎ ((releases e ≡ false) × AcceptedSince p earlier)

-- What a reservation state says of the history.
abbrev pub Explains : List SwarmEvent → RelayReservationState → Type 0
Explains h unreserved = Unit {0}
Explains h (pending p) = AskedSince p h
Explains h (active p) = AcceptedSince p h

find_candidate-found :
    (relay_peers : Assoc ℕ RelayCandidate) (p : ℕ) (c : RelayCandidate)
    → find_candidate relay_peers ≡ some (p, c)
    → (i : ℕ) × (get_elem? relay_peers i ≡ some (p, c)) × (is_eligible c ≡ true)
unfolding find_candidate
find_candidate-found [] p c e = absurd (cc)
find_candidate-found ((q, d) ∷ relay_peers) p c e = elim (Bool-cases (is_eligible d)) [
  | inl here ↦ (0, ground (arith, here), ground (arith, here))
  | inr skip ↦
      let (i, at, good) = find_candidate-found relay_peers p c (ground (arith, skip)) in
      (suc i, at, good)
]

request_relay_reservation-listens :
    (listen_on : Multiaddr → Bool) (p : ℕ) (bases : List Multiaddr)
    → request_relay_reservation listen_on p bases ≡ true
    → (base : Multiaddr) × (j : ℕ) × (get_elem? bases j ≡ some base)
      × (listen_on (build_circuit_listen_addr base p) ≡ true)
unfolding request_relay_reservation
request_relay_reservation-listens listen_on p [] h = absurd (cc)
request_relay_reservation-listens listen_on p (base ∷ bases) h =
    elim (Bool-cases (listen_on (build_circuit_listen_addr base p))) [
      | inl takes ↦ (base, 0, refl, takes)
      | inr refuses ↦
          let (b, j, at, takes) =
            request_relay_reservation-listens listen_on p bases (ground (arith, refuses)) in
          (b, suc j, at, takes)
    ]

-- The private arm on a node without a reservation.
try_reserve-Explains :
    (relay_peers : Assoc ℕ RelayCandidate) (listen_on : Multiaddr → Bool) (h : List SwarmEvent)
    → Explains
        (autonat (some private) relay_peers listen_on ∷ h)
        (try_reserve listen_on relay_peers unreserved)
unfolding try_reserve mark_pending is_eligible
try_reserve-Explains relay_peers listen_on h =
    let now = autonat (some private) relay_peers listen_on ∷ h in
    elim (Option-cases (find_candidate relay_peers)) [
      | inl nobody ↦ subst (Explains now) (ends unreserved (ground (arith, nobody))) tt
      | inr ((p, c), found) ↦ elim (Bool-cases (request_relay_reservation listen_on p c.addrs)) [
        | inr refused ↦ subst (Explains now) (ends unreserved (ground (arith, found, refused))) tt
        | inl taken ↦
            let (i, at, good) = find_candidate-found relay_peers p c found in
            let (base, j, here, takes) =
              request_relay_reservation-listens listen_on p c.addrs taken in
            subst (Explains now) (ends (pending p) (ground (arith, found, taken)))
              (inl (c, i, base, j, at, ground (arith, good), here, takes))
      ]
    ]
  where
    ends :
        (state : RelayReservationState)
        → try_reserve listen_on relay_peers unreserved ≡ state
        → state ≡ try_reserve listen_on relay_peers unreserved
    ends state e = sym e

-- An event that neither releases nor changes the reservation.
Explains-quiet :
    (e : SwarmEvent) (h : List SwarmEvent) (state : RelayReservationState)
    → releases e ≡ false
    → Explains h state
    → Explains (e ∷ h) state
Explains-quiet e h unreserved quiet why = tt
Explains-quiet e h (pending p) quiet why = inr (quiet, why)
Explains-quiet e h (active p) quiet why = inr (quiet, why)

private-Explains :
    (relay_peers : Assoc ℕ RelayCandidate) (listen_on : Multiaddr → Bool) (h : List SwarmEvent)
    (state : RelayReservationState)
    → Explains h state
    → Explains
        (autonat (some private) relay_peers listen_on ∷ h)
        (if is_busy state then state else try_reserve listen_on relay_peers state)
unfolding is_busy
private-Explains relay_peers listen_on h unreserved why =
    try_reserve-Explains relay_peers listen_on h
private-Explains relay_peers listen_on h (pending p) why = inr (refl, why)
private-Explains relay_peers listen_on h (active p) why = inr (refl, why)

accepted-Explains :
    (q : ℕ) (h : List SwarmEvent) (state : RelayReservationState)
    → Explains h state
    → Explains (relay_client (some q) ∷ h) (mark_active q state)
unfolding mark_active
accepted-Explains q h unreserved why = tt
accepted-Explains q h (pending p) why = elim (Bool-cases (nat_beq p q)) [
  | inl same ↦
      let here : p ≡ q = ground (arith, same) in
      rw (same) (inl (ground (arith), subst (λ r. AskedSince r h) here why))
  | inr differs ↦ rw (differs) (inr (refl, why))
]
accepted-Explains q h (active p) why = inr (refl, why)

closed-Explains :
    (closed_addrs : List Multiaddr) (h : List SwarmEvent) (state : RelayReservationState)
    → Explains h state
    → Explains
        (listener_closed closed_addrs ∷ h)
        (handle_listener_closed_for_reservation closed_addrs state).0
unfolding handle_listener_closed_for_reservation is_busy reset
closed-Explains closed_addrs h unreserved why =
    elim (Bool-cases (any_by has_circuit closed_addrs)) [
      | inl gone ↦ rw (gone) (tt)
      | inr kept ↦ rw (kept) (tt)
    ]
closed-Explains closed_addrs h (pending p) why =
    elim (Bool-cases (any_by has_circuit closed_addrs)) [
      | inl gone ↦ rw (gone) (tt)
      | inr kept ↦ rw (kept) (inr (kept, why))
    ]
closed-Explains closed_addrs h (active p) why =
    elim (Bool-cases (any_by has_circuit closed_addrs)) [
      | inl gone ↦ rw (gone) (tt)
      | inr kept ↦ rw (kept) (inr (kept, why))
    ]

handle_event-Explains :
    (e : SwarmEvent) (h : List SwarmEvent) (n : Node)
    → Explains h n.reservation
    → Explains (e ∷ h) (handle_event e n).reservation
unfolding handle_event handle_autonat_event handle_relay_client_event reset
handle_event-Explains (autonat none relay_peers listen_on) h n why =
    Explains-quiet (autonat none relay_peers listen_on) h n.reservation refl why
handle_event-Explains (autonat (some unknown) relay_peers listen_on) h n why =
    Explains-quiet (autonat (some unknown) relay_peers listen_on) h n.reservation refl why
handle_event-Explains (autonat (some (public addr)) relay_peers listen_on) h n why = tt
handle_event-Explains (autonat (some private) relay_peers listen_on) h n why =
    private-Explains relay_peers listen_on h n.reservation why
handle_event-Explains relay h n why = Explains-quiet relay h n.reservation refl why
handle_event-Explains (relay_client none) h n why =
    Explains-quiet (relay_client none) h n.reservation refl why
handle_event-Explains (relay_client (some q)) h n why = accepted-Explains q h n.reservation why
handle_event-Explains (listener_closed closed_addrs) h n why =
    closed-Explains closed_addrs h n.reservation why

-- After any events, a pending reservation with a peer was asked for when the node was private, of
-- a confirmed candidate through one of its addresses, and an active one was accepted by that peer
-- after it was asked for; and since then the node did not turn out public and no circuit listener
-- closed.
pub after-Explains : (h : List SwarmEvent) → Explains h (after h).reservation
unfolding after
after-Explains [] = tt
after-Explains (e ∷ h) = handle_event-Explains e h (after h) (after-Explains h)
