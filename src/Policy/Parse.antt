-- ===== src/Policy/Parse.antt =====
-- crates/sum-net/src/policy.rs: the entries of an allow-list from their text. Trimming and the
-- standard library's and libp2p's parsers are parameters. An error is its reason.
use storage_node_interface_p.Prelude.{
  ℕ, Bool, false, not, Option, none, some, List, [], ◌∷◌, length, ltb, nat_beq, if◌then◌else◌,
  Result, ok, err,
}
use storage_node_interface_p.Text.{Text}
use storage_node_interface_p.Multiaddr.{tcp, udp, quic_v1, Multiaddr, has_circuit}
use storage_node_interface_p.Policy.{
  IpAddr, v4, v6, AllowEntry, network, prefix, is_host, mask, split_peer,
}

pub record Parsers : Type 0 where
  pub trim : Text → Text
  pub parse_ip : Text → Option IpAddr
  pub parse_u8 : Text → Option ℕ
  pub parse_multiaddr : Text → Option Multiaddr

pub data PolicyParseError : Type 0 where
  empty_entry : PolicyParseError
  not_an_ip : PolicyParseError
  not_a_prefix_length : PolicyParseError
  -- n and max
  prefix_too_long : ℕ → ℕ → PolicyParseError
  not_a_multiaddr : PolicyParseError
  relayed : PolicyParseError
  peer_alone : PolicyParseError
  not_a_host : PolicyParseError
  port_zero : PolicyParseError
  unsupported_form : PolicyParseError

-- `split_once('/')`
unfoldable pub split_once : Text → Option (Text × Text)
split_once [] = none
split_once (c ∷ cs) =
    let later = split_once cs in
    if nat_beq c b'/'
    then some ([], cs)
    else elim later [ none ↦ none | some (front, back) ↦ some (c ∷ front, back) ]

unfoldable pub max_prefix : IpAddr → ℕ
max_prefix (v4 a) = 32
max_prefix (v6 a) = 128

-- What follows the host.
unfoldable pub check_rest : Multiaddr → Result PolicyParseError (Unit {0})
check_rest [] = ok tt
check_rest (tcp port ∷ []) = if nat_beq port 0 then err port_zero else ok tt
check_rest (udp port ∷ []) = if nat_beq port 0 then err port_zero else ok tt
check_rest (udp port ∷ quic_v1 ∷ []) = if nat_beq port 0 then err port_zero else ok tt
check_rest _ = err unsupported_form

-- The tests on the body.
unfoldable pub check_body : Multiaddr → Option ℕ → Result PolicyParseError AllowEntry
check_body [] peer = err peer_alone
check_body (host ∷ rest) peer =
    if not (is_host host)
    then err not_a_host
    else elim (check_rest rest) [ err e ↦ err e | ok _ ↦ ok (prefix (host ∷ rest) peer) ]

-- `starts_with('/')`
unfoldable pub starts_with_slash : Text → Bool
starts_with_slash [] = false
starts_with_slash (c ∷ cs) = nat_beq c b'/'

module _ (parsers : Parsers) where
  -- The part after the slash.
  unfoldable pub parse_prefix_len : ℕ → Option Text → Result PolicyParseError ℕ
  parse_prefix_len max none = ok max
  parse_prefix_len max (some p) = elim (parsers.parse_u8 p) [
    | none ↦ err not_a_prefix_length
    | some n ↦ if ltb max n then err (prefix_too_long n max) else ok n
  ]

  unfoldable pub network_of : Text → Option Text → Result PolicyParseError AllowEntry
  network_of ip_part prefix_part = elim (parsers.parse_ip ip_part) [
    | none ↦ err not_an_ip
    | some addr ↦ elim (parse_prefix_len (max_prefix addr) prefix_part) [
      | err e ↦ err e
      | ok n ↦ ok (network (mask addr n) n)
    ]
  ]

  unfoldable pub parse_network : Text → Result PolicyParseError AllowEntry
  parse_network s = elim (split_once s) [
    | none ↦ network_of s none
    | some (ip_part, prefix_part) ↦ network_of ip_part (some prefix_part)
  ]

  unfoldable pub parse_prefix : Text → Result PolicyParseError AllowEntry
  parse_prefix s = elim (parsers.parse_multiaddr s) [
    | none ↦ err not_a_multiaddr
    | some all ↦
        if has_circuit all
        then err relayed
        else let (body, peer) = split_peer all none in check_body body peer
  ]

  -- `AllowEntry::from_str`
  unfoldable pub from_str : Text → Result PolicyParseError AllowEntry
  from_str raw =
      let s = parsers.trim raw in
      if nat_beq (length s) 0
      then err empty_entry
      else if starts_with_slash s
      then parse_prefix s
      else parse_network s

  -- The loop over the items.
  unfoldable pub parse_items : List Text → Result PolicyParseError (List AllowEntry)
  parse_items [] = ok []
  parse_items (item ∷ items) =
      let later = parse_items items in
      if nat_beq (length (parsers.trim item)) 0 then later else elim (from_str item) [
        | err e ↦ err e
        | ok entry ↦ elim later [ err e ↦ err e | ok entries ↦ ok (entry ∷ entries) ]
      ]

  -- `AddrPolicy::parse`
  unfoldable pub parse : List Text → Result PolicyParseError (Option (List AllowEntry))
  parse items = elim (parse_items items) [
    | err e ↦ err e
    | ok entries ↦ ok (if nat_beq (length entries) 0 then none else some entries)
  ]
