-- ===== src/Multiaddr.antt =====
-- libp2p's addresses, as crates/sum-net uses them: a list of components, of which these are the ones
-- that the source names; `other` is any other, by its bytes. An IP address or a peer identity is
-- the number that its bytes spell.
use storage_node_interface_p.Prelude.{
  ℕ, ◌≡◌, refl, sym, ap, ◌∙◌, Bool, true, false, List, [], ◌∷◌, nat_beq, if◌then◌else◌, any_by,
}
use storage_node_interface_p.Prelude.Eq.{Eq, list_beq, list_beq_iff, nat_eq}
use storage_node_interface_p.Text.{Text}

pub data Protocol : Type 0 where
  ip4 : ℕ → Protocol
  ip6 : ℕ → Protocol
  tcp : ℕ → Protocol
  udp : ℕ → Protocol
  quic_v1 : Protocol
  dns : Text → Protocol
  dns4 : Text → Protocol
  dns6 : Text → Protocol
  dnsaddr : Text → Protocol
  p2p : ℕ → Protocol
  p2p_circuit : Protocol
  other : List ℕ → Protocol

abbrev pub Multiaddr : Type 0
Multiaddr = List Protocol

-- A component as numbers, to be compared.
abbrev key : Protocol → List ℕ
key (ip4 a) = 0 ∷ a ∷ []
key (ip6 a) = 1 ∷ a ∷ []
key (tcp a) = 2 ∷ a ∷ []
key (udp a) = 3 ∷ a ∷ []
key quic_v1 = 4 ∷ []
key (dns t) = 5 ∷ t
key (dns4 t) = 6 ∷ t
key (dns6 t) = 7 ∷ t
key (dnsaddr t) = 8 ∷ t
key (p2p a) = 9 ∷ a ∷ []
key p2p_circuit = 10 ∷ []
key (other t) = 11 ∷ t

abbrev first_of : List ℕ → ℕ
first_of [] = 0
first_of (x ∷ xs) = x

abbrev of_key : List ℕ → Protocol
of_key [] = quic_v1
of_key (n ∷ t) =
    if nat_beq n 0
    then ip4 (first_of t)
    else if nat_beq n 1
    then ip6 (first_of t)
    else if nat_beq n 2
    then tcp (first_of t)
    else if nat_beq n 3
    then udp (first_of t)
    else if nat_beq n 4
    then quic_v1
    else if nat_beq n 5
    then dns t
    else if nat_beq n 6
    then dns4 t
    else if nat_beq n 7
    then dns6 t
    else if nat_beq n 8
    then dnsaddr t
    else if nat_beq n 9
    then p2p (first_of t)
    else if nat_beq n 10
    then p2p_circuit
    else other t

pub of_key-key : (p : Protocol) → of_key (key p) ≡ p
of_key-key (ip4 a) = refl
of_key-key (ip6 a) = refl
of_key-key (tcp a) = refl
of_key-key (udp a) = refl
of_key-key quic_v1 = refl
of_key-key (dns t) = refl
of_key-key (dns4 t) = refl
of_key-key (dns6 t) = refl
of_key-key (dnsaddr t) = refl
of_key-key (p2p a) = refl
of_key-key p2p_circuit = refl
of_key-key (other t) = refl

instance abbrev pub protocol_eq : Eq Protocol
protocol_eq = record {
  beq = λ p q. list_beq (key p) (key q);
  beq_iff = λ p q. (
    λ h. sym (of_key-key p) ∙ ap of_key ((list_beq_iff (key p) (key q)).0 h) ∙ of_key-key q,
    λ e. (list_beq_iff (key p) (key q)).1 (ap key e),
  );
}

-- `matches!(p, Protocol::P2pCircuit)`
unfoldable pub is_circuit : Protocol → Bool
is_circuit p2p_circuit = true
is_circuit _ = false

-- `matches!(p, Protocol::P2p(_))`
unfoldable pub is_p2p : Protocol → Bool
is_p2p (p2p peer) = true
is_p2p _ = false

unfoldable pub has_circuit : Multiaddr → Bool
has_circuit addr = any_by is_circuit addr
