-- ===== src/Policy/Judged.antt =====
-- What the answers of the allow-list depend on.
use storage_node_interface_p.Prelude.{
  ℕ, ◌≡◌, refl, sym, ap, ◌∙◌, true, false, not, Option, none, some, List, [], ◌∷◌, ◌++◌, ◌⊎◌, inl,
  inr, filter_by, any_by, Option-cases, if◌then◌else◌, arith,
}
use storage_node_interface_p.Multiaddr.{
  Protocol, ip4, ip6, tcp, udp, quic_v1, dns, dns4, dns6, dnsaddr, p2p, p2p_circuit, other,
  Multiaddr, is_circuit, is_p2p, has_circuit,
}
use storage_node_interface_p.Nat.{build_circuit_listen_addr}
use storage_node_interface_p.Policy.{
  AllowEntry, network, prefix, PeerPin, enforce, defer, is_defer, peer_ok, matches, before_circuit,
  split_last, named_peer, split_peer, judge_transport, decide, allows,
}

-- A component that is a circuit, or is none.
circuit_or :
    (c : Protocol) (rest : Multiaddr)
    → before_circuit (c ∷ rest) ≡ (
        if is_circuit c
        then some []
        else elim (before_circuit rest) [ none ↦ none | some s ↦ some (c ∷ s) ])
unfolding before_circuit is_circuit
circuit_or (ip4 a) rest = refl
circuit_or (ip6 a) rest = refl
circuit_or (tcp a) rest = refl
circuit_or (udp a) rest = refl
circuit_or quic_v1 rest = refl
circuit_or (dns t) rest = refl
circuit_or (dns4 t) rest = refl
circuit_or (dns6 t) rest = refl
circuit_or (dnsaddr t) rest = refl
circuit_or (p2p a) rest = refl
circuit_or p2p_circuit rest = refl
circuit_or (other t) rest = refl

before_circuit-none : (addr : Multiaddr) → has_circuit addr ≡ false → before_circuit addr ≡ none
unfolding has_circuit before_circuit
before_circuit-none [] h = refl
before_circuit-none (c ∷ rest) h =
    ground (arith, circuit_or c rest, before_circuit-none rest (ground (arith, h)))

-- What stands after the first circuit does not count.
before_circuit-append :
    (relay rest : Multiaddr)
    → has_circuit relay ≡ false
    → before_circuit (relay ++ (p2p_circuit ∷ rest)) ≡ some relay
unfolding has_circuit before_circuit
before_circuit-append [] rest h = refl
before_circuit-append (c ∷ relay) rest h = ground (
  arith,
  circuit_or c (relay ++ (p2p_circuit ∷ rest)),
  before_circuit-append relay rest (ground (arith, h)),
)

split_last-snoc :
    (front : Multiaddr) (c : Protocol) → split_last (front ++ (c ∷ [])) ≡ some (front, c)
unfolding split_last
split_last-snoc [] c = refl
split_last-snoc (x ∷ front) c = ground (arith, split_last-snoc front c)

-- A relayed address is judged by its relay part alone.
pub decide-relay_part :
    (entries : List AllowEntry) (relay rest : Multiaddr) (peer_hint : Option ℕ) (pin : PeerPin)
    → has_circuit relay ≡ false
    → decide entries (relay ++ (p2p_circuit ∷ rest)) peer_hint pin ≡ decide entries relay none pin
unfolding decide
decide-relay_part entries relay rest peer_hint pin h =
    rw (decide, before_circuit-append relay rest h, before_circuit-none relay h) (refl)

-- The peer that a direct address names is the one that counts.
decide-named_peer :
    (entries : List AllowEntry) (front : Multiaddr) (p : ℕ) (pin : PeerPin) (h g : Option ℕ)
    → has_circuit (front ++ (p2p p ∷ [])) ≡ false
    → decide entries (front ++ (p2p p ∷ [])) h pin ≡ decide entries (front ++ (p2p p ∷ [])) g pin
unfolding decide split_peer named_peer
decide-named_peer entries front p pin h g plain =
    rw
      (
        decide,
        before_circuit-none (front ++ (p2p p ∷ [])) plain,
        split_peer,
        split_last-snoc front (p2p p),
      )
      (refl)

stripped_circuit :
    (base : Multiaddr)
    → has_circuit base ≡ false
    → has_circuit (filter_by (λ proto. not (is_p2p proto)) base) ≡ false
unfolding has_circuit
stripped_circuit [] h = refl
stripped_circuit (c ∷ base) h = ground (arith, stripped_circuit base (ground (arith, h)))

has_circuit-snoc :
    (addr : Multiaddr) (p : ℕ)
    → has_circuit addr ≡ false
    → has_circuit (addr ++ (p2p p ∷ [])) ≡ false
unfolding has_circuit is_circuit
has_circuit-snoc [] p h = refl
has_circuit-snoc (c ∷ addr) p h = ground (arith, has_circuit-snoc addr p (ground (arith, h)))

append_assoc : (xs ys zs : Multiaddr) → (xs ++ ys) ++ zs ≡ xs ++ (ys ++ zs)
append_assoc [] ys zs = refl
append_assoc (x ∷ xs) ys zs = ap (λ (t : Multiaddr). x ∷ t) (append_assoc xs ys zs)

-- The relay's own address: the base without a peer, and the relay's identity.
abbrev pub relay_addr : Multiaddr → ℕ → Multiaddr
relay_addr base relay_peer = filter_by (λ proto. not (is_p2p proto)) base ++ (p2p relay_peer ∷ [])

-- For a base without a circuit, the allow-list allows the circuit address that is built from it
-- and a relay exactly when it allows the relay's own address, which ends in the relay's identity,
-- whichever peers are given beside.
pub allows-build_circuit_listen_addr :
    (entries : List AllowEntry) (base : Multiaddr) (relay_peer : ℕ) (hint own : Option ℕ)
    → has_circuit base ≡ false
    → allows entries (build_circuit_listen_addr base relay_peer) hint
      ≡ allows entries (relay_addr base relay_peer) own
unfolding allows build_circuit_listen_addr
allows-build_circuit_listen_addr entries base relay_peer hint own h =
    let bare = filter_by (λ proto. not (is_p2p proto)) base in
    let plain = has_circuit-snoc bare relay_peer (stripped_circuit base h) in
    rw (h) (
      ap (λ a. decide entries a hint enforce)
        (sym (append_assoc bare (p2p relay_peer ∷ []) (p2p_circuit ∷ [])))
      ∙ decide-relay_part entries (relay_addr base relay_peer) [] hint enforce plain
      ∙ decide-named_peer entries bare relay_peer enforce none own plain)

-- What is said of a peer that is named is allowed of one that is not known yet.
peer_ok-defer :
    (wanted p q : Option ℕ)
    → (q ≡ p) ⊎ (q ≡ none)
    → peer_ok wanted p enforce ≡ true
    → peer_ok wanted q defer ≡ true
unfolding peer_ok is_defer
peer_ok-defer none p q same h = refl
peer_ok-defer (some w) none none same h = refl
peer_ok-defer (some w) none (some q) same h = absurd (cc)
peer_ok-defer (some w) (some p) none same h = refl
peer_ok-defer (some w) (some p) (some q) same h = ground (arith, same, h)

matches-defer :
    (entries : List AllowEntry) (transport : Multiaddr) (p q : Option ℕ)
    → (q ≡ p) ⊎ (q ≡ none)
    → any_by (matches transport p enforce) entries ≡ true
    → any_by (matches transport q defer) entries ≡ true
unfolding matches
matches-defer [] transport p q same h = absurd (cc)
matches-defer (network addr len ∷ entries) transport p q same h =
    ground (arith, matches-defer entries transport p q same)
matches-defer (prefix components wanted ∷ entries) transport p q same h =
    ground (arith, matches-defer entries transport p q same, peer_ok-defer wanted p q same)

judge_transport-defer :
    (entries : List AllowEntry) (transport : Multiaddr) (p q : Option ℕ)
    → (q ≡ p) ⊎ (q ≡ none)
    → judge_transport entries transport p enforce ≡ true
    → judge_transport entries transport q defer ≡ true
unfolding judge_transport
judge_transport-defer entries [] p q same h = absurd (cc)
judge_transport-defer entries (host ∷ rest) p q same h =
    ground (arith, matches-defer entries (host ∷ rest) p q same)

-- A peer given beside the address is the one that counts, or counts for nothing.
split_peer-none :
    (segment : Multiaddr) (given : Option ℕ)
    → ((split_peer segment none).0 ≡ (split_peer segment given).0)
      × (((split_peer segment none).1 ≡ (split_peer segment given).1)
          ⊎ ((split_peer segment none).1 ≡ none))
unfolding split_peer
split_peer-none segment given = elim (Option-cases (split_last segment)) [
  | inl empty ↦ rw (split_peer, empty) (refl, inr refl)
  | inr ((rest, last), found) ↦ elim (Option-cases (named_peer last)) [
    | inl nobody ↦ rw (split_peer, found, nobody) (refl, inr refl)
    | inr (p, named) ↦ rw (split_peer, found, named) (refl, inl refl)
  ]
]

segment-defer :
    (entries : List AllowEntry) (segment : Multiaddr) (given : Option ℕ)
    → judge_transport entries (split_peer segment given).0 (split_peer segment given).1 enforce
      ≡ true
    → judge_transport entries (split_peer segment none).0 (split_peer segment none).1 defer ≡ true
segment-defer entries segment given h =
    let (same, w) = split_peer-none segment given in
    judge_transport-defer entries (split_peer segment none).0 (split_peer segment given).1
      (split_peer segment none).1 w
      (ap (λ t. judge_transport entries t (split_peer segment given).1 enforce) same ∙ h)

-- An address that the allow-list allows, for whichever peer, is not refused by the early check
-- that does not know the peer.
pub decide-defer :
    (entries : List AllowEntry) (addr : Multiaddr) (peer_hint : Option ℕ)
    → allows entries addr peer_hint ≡ true
    → decide entries addr none defer ≡ true
unfolding allows decide
decide-defer entries addr peer_hint h = elim (Option-cases (before_circuit addr)) [
  | inr (segment, e) ↦ rw (decide, e) (segment-defer entries segment none (ground (arith, h, e)))
  | inl e ↦ rw (decide, e) (segment-defer entries addr peer_hint (ground (arith, h, e)))
]
