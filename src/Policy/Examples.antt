-- ===== src/Policy/Examples.antt =====
-- A list of one network and one pinned prefix.
use storage_node_interface_p.Prelude.{
  ℕ, ◌≡◌, ◌<◌, ◌^◌, refl, true, false, none, some, List, [], ◌∷◌, ◌++◌, length, nat_beq, All, ok,
  if◌then◌else◌,
}
use storage_node_interface_p.Prelude.Eq.{nat_eq, ◌==◌, list_eq}
use storage_node_interface_p.Text.{text}
use storage_node_interface_p.Multiaddr.{
  ip4, tcp, p2p, Multiaddr, is_circuit, is_p2p, has_circuit, protocol_eq,
}
use storage_node_interface_p.Nat.{build_circuit_listen_addr}
use storage_node_interface_p.Policy.{
  v4, v6, AllowEntry, network, prefix, defer, is_host, mask_bits, mask, network_contains,
  same_component, prefix_ok, is_defer, peer_ok, host_ip, matches, before_circuit, split_last,
  named_peer, split_peer, judge_transport, decide, allows,
}
use storage_node_interface_p.Policy.Networks.{first_bits, mapped, network_contains-first_bits}
use storage_node_interface_p.Policy.Judged.{
  relay_addr, allows-build_circuit_listen_addr, decide-defer,
}
use storage_node_interface_p.Policy.Parse.{
  Parsers, max_prefix, check_rest, check_body, parse_prefix_len, network_of, parse_network,
  split_once, parse_prefix, from_str, parse_items, parse, starts_with_slash,
}
use storage_node_interface_p.Policy.Entries.{IsEntry, parse-IsEntry}
use storage_node_interface_p.Policy.Net.{identify, bootstrap}
use storage_node_interface_p.Policy.Counts.{
  Call, admits, dials, labels_dial, begins, after_calls, Accounts, after_calls-Accounts,
}

-- 10.1.2.3
abbrev host : ℕ
host = 0x0a010203

abbrev pinned : Multiaddr
pinned = ip4 0x7f000001 ∷ tcp 4001 ∷ []

-- 10.0.0.0/8, and 127.0.0.1 on port 4001 for peer 5
abbrev entries : List AllowEntry
entries = network (v4 0x0a000000) 8 ∷ prefix pinned (some 5) ∷ []

host_allowed : allows entries (ip4 host ∷ tcp 1 ∷ []) none ≡ true
unfolding allows decide before_circuit split_peer split_last named_peer judge_transport is_host
    is_p2p matches host_ip network_contains mask mask_bits
host_allowed = refl

pinned_refused : allows entries pinned none ≡ false
unfolding allows decide before_circuit split_peer split_last named_peer judge_transport is_host
    is_p2p matches host_ip network_contains mask mask_bits prefix_ok same_component peer_ok is_defer
pinned_refused = refl

pinned_allowed : allows entries pinned (some 5) ≡ true
unfolding allows decide before_circuit split_peer split_last named_peer judge_transport is_host
    is_p2p matches host_ip network_contains mask mask_bits prefix_ok same_component peer_ok is_defer
pinned_allowed = refl

network_contains-first_bits_example :
    ((0x0a000000 < 2 ^ 32)
      → (host < 2 ^ 32)
      → network_contains (mask (v4 0x0a000000) 8) 8 (v4 host)
        ≡ nat_beq (first_bits 32 8 host) (first_bits 32 8 0x0a000000))
    × ((0x0a000000 < 2 ^ 128)
        → (host < 2 ^ 128)
        → network_contains (mask (v6 0x0a000000) 8) 8 (v6 host)
          ≡ nat_beq (first_bits 128 8 host) (first_bits 128 8 0x0a000000))
    × ((0x0a000000 < 2 ^ 32)
        → (host < 2 ^ 32)
        → network_contains (mask (v4 0x0a000000) 8) 8 (v6 (mapped host))
          ≡ nat_beq (first_bits 32 8 host) (first_bits 32 8 0x0a000000))
network_contains-first_bits_example = network_contains-first_bits 8 0x0a000000 host

decide-defer_example : decide entries pinned none defer ≡ true
decide-defer_example = decide-defer entries pinned (some 5) pinned_allowed

pinned_direct : has_circuit pinned ≡ false
unfolding has_circuit is_circuit
pinned_direct = refl

allows-build_circuit_listen_addr_example :
    allows entries (build_circuit_listen_addr pinned 5) none
    ≡ allows entries (relay_addr pinned 5) none
allows-build_circuit_listen_addr_example =
    allows-build_circuit_listen_addr entries pinned 5 none none pinned_direct

-- Parsers that know a few words.
abbrev parsers : Parsers
parsers = record {
  trim = λ s. s;
  parse_ip = λ s. if s == text "ten" then some (v4 host) else none;
  parse_u8 = λ s. if s == text "8" then some 8 else none;
  parse_multiaddr = λ s. if s == text "/here" then some (pinned ++ (p2p 5 ∷ [])) else none;
}

parsed : parse parsers (text "ten/8" ∷ [] ∷ text "/here" ∷ []) ≡ ok (some entries)
unfolding parse parse_items from_str parse_network parse_prefix network_of parse_prefix_len
    max_prefix split_once starts_with_slash check_body check_rest mask mask_bits split_peer
    split_last named_peer has_circuit is_circuit is_host
parsed = refl

parse-IsEntry_example : All IsEntry entries × (0 < length entries)
parse-IsEntry_example = parse-IsEntry parsers (text "ten/8" ∷ [] ∷ text "/here" ∷ []) entries parsed

-- The latest call first: a dial that was labelled is refused, and so is an advertised address.
abbrev calls : List Call
calls =
    dials pinned false
    ∷ begins 3
    ∷ labels_dial 3 bootstrap
    ∷ admits identify pinned none
    ∷ admits identify (ip4 host ∷ []) none
    ∷ []

after_calls-Accounts_example :
    Accounts (after_calls (some entries) calls).0 (after_calls (some entries) calls).1
after_calls-Accounts_example = after_calls-Accounts (some entries) calls
