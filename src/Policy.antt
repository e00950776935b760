-- ===== src/Policy.antt =====
-- crates/sum-net/src/policy.rs: the allow-list of addresses. Its entries are parsed in Policy/Parse,
-- and the policy of a node with its counters is in Policy/Net.
-- An IP address is the number that its bytes spell. `to_ipv4_mapped`, `eq_ignore_ascii_case` and
-- `trim_end_matches` are the standard library's.
pub mod Parse
pub mod Net
pub mod Networks
pub mod Judged
pub mod Entries
pub mod Counts
mod Examples
use storage_node_interface_p.Prelude.{
  ℕ, ◌+◌, ◌-◌, ◌*◌, ◌/◌, ◌%◌, ◌^◌, Bool, true, false, ◌&&◌, ◌||◌, not, Option, none, some, List, [],
  ◌∷◌, map, length, leb, nat_beq, if◌then◌else◌, any_by,
}
use storage_node_interface_p.Prelude.Eq.{◌==◌, nat_eq, list_eq}
use storage_node_interface_p.Text.{Text}
use storage_node_interface_p.Multiaddr.{
  Protocol, ip4, ip6, dns, dns4, dns6, dnsaddr, p2p, p2p_circuit, Multiaddr, protocol_eq, is_p2p,
}

pub data IpAddr : Type 0 where
  v4 : ℕ → IpAddr
  v6 : ℕ → IpAddr

pub data AllowEntry : Type 0 where
  -- addr and prefix
  network : IpAddr → ℕ → AllowEntry
  -- components and peer
  prefix : Multiaddr → Option ℕ → AllowEntry

unfoldable pub is_host : Protocol → Bool
is_host (ip4 a) = true
is_host (ip6 a) = true
is_host (dns t) = true
is_host (dns4 t) = true
is_host (dns6 t) = true
is_host (dnsaddr t) = true
is_host _ = false

-- `&` with the mask of the first bits, of a number of so many bits.
unfoldable pub mask_bits : ℕ → ℕ → ℕ → ℕ
mask_bits width len x = if nat_beq len 0 then 0 else x / 2 ^ (width - len) * 2 ^ (width - len)

unfoldable pub mask : IpAddr → ℕ → IpAddr
mask (v4 a) len = v4 (mask_bits 32 len a)
mask (v6 a) len = v6 (mask_bits 128 len a)

abbrev pub ip_beq : IpAddr → IpAddr → Bool
ip_beq (v4 a) (v4 b) = nat_beq a b
ip_beq (v6 a) (v6 b) = nat_beq a b
ip_beq _ _ = false

-- `to_ipv4_mapped`
unfoldable pub to_ipv4_mapped : ℕ → Option ℕ
to_ipv4_mapped a = if nat_beq (a / 2 ^ 32) 0xffff then some (a % 2 ^ 32) else none

unfoldable pub network_contains : IpAddr → ℕ → IpAddr → Bool
network_contains (v4 net) len (v4 ip) = ip_beq (mask (v4 ip) len) (v4 net)
network_contains (v6 net) len (v6 ip) = ip_beq (mask (v6 ip) len) (v6 net)
network_contains (v4 net) len (v6 ip) = elim (to_ipv4_mapped ip) [
  | none ↦ false
  | some a ↦ ip_beq (mask (v4 a) len) (v4 net)
]
network_contains (v6 net) len (v4 ip) = false

-- `to_ascii_lowercase` of a byte
unfoldable pub lower : ℕ → ℕ
lower c = if leb b'A' c && leb c b'Z' then c + 32 else c

-- `trim_end_matches('.')`
unfoldable pub trim_end_dots : Text → Text
trim_end_dots [] = []
trim_end_dots (c ∷ cs) =
    let rest = trim_end_dots cs in
    if nat_beq c b'.' && nat_beq (length rest) 0 then [] else c ∷ rest

unfoldable pub dns_eq : Text → Text → Bool
dns_eq a b = map lower (trim_end_dots a) == map lower (trim_end_dots b)

unfoldable pub same_component : Protocol → Protocol → Bool
same_component (dns a) (dns b) = dns_eq a b
same_component (dns4 a) (dns4 b) = dns_eq a b
same_component (dns6 a) (dns6 b) = dns_eq a b
same_component (dnsaddr a) (dnsaddr b) = dns_eq a b
same_component e a = e == a

pub data PeerPin : Type 0 where
  enforce : PeerPin
  defer : PeerPin

unfoldable pub is_defer : PeerPin → Bool
is_defer enforce = false
is_defer defer = true

-- The entry's components begin the address: it has as many, and the pairs of `zip` are the same.
unfoldable pub prefix_ok : Multiaddr → Multiaddr → Bool
prefix_ok [] transport = true
prefix_ok (e ∷ es) [] = false
prefix_ok (e ∷ es) (a ∷ rest) = same_component e a && prefix_ok es rest

unfoldable pub peer_ok : Option ℕ → Option ℕ → PeerPin → Bool
peer_ok none p pin = true
peer_ok (some w) (some p) pin = nat_beq w p
peer_ok (some w) none pin = is_defer pin

-- The host's address, when it has one.
unfoldable pub host_ip : Multiaddr → Option IpAddr
host_ip (ip4 ip ∷ rest) = some (v4 ip)
host_ip (ip6 ip ∷ rest) = some (v6 ip)
host_ip _ = none

unfoldable pub matches : Multiaddr → Option ℕ → PeerPin → AllowEntry → Bool
matches transport p pin (network addr len) = elim (host_ip transport) [
  | none ↦ false
  | some ip ↦ network_contains addr len ip
]
matches transport p pin (prefix components wanted) =
    prefix_ok components transport && peer_ok wanted p pin

-- The components before the first `/p2p-circuit`, if there is one.
unfoldable pub before_circuit : Multiaddr → Option Multiaddr
before_circuit [] = none
before_circuit (p2p_circuit ∷ rest) = some []
before_circuit (c ∷ rest) = elim (before_circuit rest) [ none ↦ none | some s ↦ some (c ∷ s) ]

-- `split_last`
unfoldable pub split_last : Multiaddr → Option (Multiaddr × Protocol)
split_last [] = none
split_last (c ∷ rest) = elim (split_last rest) [
  | none ↦ some ([], c)
  | some (front, last) ↦ some (c ∷ front, last)
]

-- The peer that a component names.
unfoldable pub named_peer : Protocol → Option ℕ
named_peer (p2p p) = some p
named_peer _ = none

-- A final `/p2p/<peer>` taken off, or else the peer that is given.
unfoldable pub split_peer : Multiaddr → Option ℕ → Multiaddr × Option ℕ
split_peer segment given = elim (split_last segment) [
  | none ↦ (segment, given)
  | some (rest, last) ↦ elim (named_peer last) [ none ↦ (segment, given) | some p ↦ (rest, some p) ]
]

-- The tests on the transport part, and the entries.
unfoldable pub judge_transport : List AllowEntry → Multiaddr → Option ℕ → PeerPin → Bool
judge_transport entries [] p pin = false
judge_transport entries (host ∷ rest) p pin =
    if not (is_host host) || any_by is_p2p (host ∷ rest)
    then false
    else any_by (matches (host ∷ rest) p pin) entries

unfoldable pub decide : List AllowEntry → Multiaddr → Option ℕ → PeerPin → Bool
decide entries addr peer_hint pin = elim (before_circuit addr) [
  | some segment ↦
      let (transport, p) = split_peer segment none in judge_transport entries transport p pin
  | none ↦ let (transport, p) = split_peer addr peer_hint in judge_transport entries transport p pin
]

unfoldable pub allows : List AllowEntry → Multiaddr → Option ℕ → Bool
allows entries addr peer_hint = decide entries addr peer_hint enforce
