-- ===== src/Policy/Entries.antt =====
-- The entries that parsing lets through.
use storage_node_interface_p.Prelude.{
  ℕ, ◌≡◌, ◌≤◌, ◌<◌, refl, sym, subst, true, Option, none, some, List, [], ◌∷◌, length, nat_beq, All,
  Result, ok, Result-cases, Option-cases, Bool-cases, inl, inr, arith, some_eq,
}
use storage_node_interface_p.Text.{Text}
use storage_node_interface_p.Multiaddr.{Protocol, tcp, udp, quic_v1, Multiaddr, has_circuit}
use storage_node_interface_p.Policy.{
  IpAddr, v4, v6, AllowEntry, network, prefix, is_host, mask, split_peer,
}
use storage_node_interface_p.Policy.Networks.{mask_twice}
use storage_node_interface_p.Policy.Parse.{
  Parsers, PolicyParseError, max_prefix, check_rest, check_body, parse_prefix_len, network_of,
  parse_network, split_once, parse_prefix, from_str, parse_items, parse, starts_with_slash,
}

-- The forms that may follow the host: nothing, or a port that is not zero, with QUIC after UDP.
pub data IsPort : Multiaddr → Type 0 where
  any_port : IsPort []
  tcp_port : (port : ℕ) → 0 < port → IsPort (tcp port ∷ [])
  udp_port : (port : ℕ) → 0 < port → IsPort (udp port ∷ [])
  quic_port : (port : ℕ) → 0 < port → IsPort (udp port ∷ quic_v1 ∷ [])

-- A network has its host bits cleared and a prefix within its family's bits; a prefix entry is a
-- host and a port.
abbrev pub IsEntry : AllowEntry → Type 0
IsEntry (network addr len) = (len ≤ max_prefix addr) × (mask addr len ≡ addr)
IsEntry (prefix components peer) =
    (host : Protocol) × (rest : Multiaddr) × (components ≡ host ∷ rest)
    × (is_host host ≡ true)
    × IsPort rest

ok_eq {ℓ κ} : {E : Type ℓ} {A : Type κ} {a b : A} → ◌≡◌ {A = Result E A} (ok a) (ok b) → a ≡ b
ok_eq e = cc

check_rest-IsPort : (rest : Multiaddr) → check_rest rest ≡ ok tt → IsPort rest
unfolding check_rest
check_rest-IsPort [] h = any_port
check_rest-IsPort (tcp port ∷ []) h = tcp_port port (ground (arith, h))
check_rest-IsPort (udp port ∷ []) h = udp_port port (ground (arith, h))
check_rest-IsPort (udp port ∷ quic_v1 ∷ []) h = quic_port port (ground (arith, h))
check_rest-IsPort _ h = absurd (cc)

check_body-IsEntry :
    (body : Multiaddr) (peer : Option ℕ) (entry : AllowEntry)
    → check_body body peer ≡ ok entry
    → IsEntry entry
unfolding check_body
check_body-IsEntry [] peer entry h = absurd (cc)
check_body-IsEntry (host ∷ rest) peer entry h = elim (Bool-cases (is_host host)) [
  | inr not_one ↦ absurd (ground (arith, h, not_one))
  | inl good ↦ elim (Result-cases (check_rest rest)) [
    | inr (e, r) ↦ absurd (ground (arith, h, good, r))
    | inl (u, r) ↦
        let made : ◌≡◌ {A = Result PolicyParseError AllowEntry} (ok (prefix (host ∷ rest) peer))
            (ok entry) =
          ground (arith, h, good, r) in
        subst IsEntry (ok_eq made) (host, rest, refl, good, check_rest-IsPort rest r)
  ]
]

mask-max_prefix : (addr : IpAddr) (len : ℕ) → max_prefix (mask addr len) ≡ max_prefix addr
unfolding max_prefix mask
mask-max_prefix (v4 a) len = refl
mask-max_prefix (v6 a) len = refl

module _ (parsers : Parsers) where
  parse_prefix_len-le :
      (max n : ℕ) (part : Option Text) → parse_prefix_len parsers max part ≡ ok n → n ≤ max
  unfolding parse_prefix_len
  parse_prefix_len-le max n none h = ground (arith, h)
  parse_prefix_len-le max n (some p) h = elim (Option-cases (parsers.parse_u8 p)) [
    | inl e ↦ absurd (ground (arith, h, e))
    | inr (m, e) ↦ ground (arith, h, e)
  ]

  network_of-IsEntry :
      (ip_part : Text) (part : Option Text) (entry : AllowEntry)
      → network_of parsers ip_part part ≡ ok entry
      → IsEntry entry
  unfolding network_of
  network_of-IsEntry ip_part part entry h = elim (Option-cases (parsers.parse_ip ip_part)) [
    | inl e ↦ absurd (ground (arith, h, e))
    | inr (addr, e) ↦ elim (Result-cases (parse_prefix_len parsers (max_prefix addr) part)) [
      | inr (x, l) ↦ absurd (ground (arith, h, e, l))
      | inl (n, l) ↦
          let made : ◌≡◌ {A = Result PolicyParseError AllowEntry} (ok (network (mask addr n) n))
              (ok entry) =
            ground (arith, h, e, l) in
          subst IsEntry (ok_eq made) (
            subst (λ (k : ℕ). n ≤ k) (sym (mask-max_prefix addr n))
                (parse_prefix_len-le (max_prefix addr) n part l),
            mask_twice addr n,
          )
    ]
  ]

  from_str-IsEntry :
      (raw : Text) (entry : AllowEntry) → from_str parsers raw ≡ ok entry → IsEntry entry
  unfolding from_str parse_network parse_prefix
  from_str-IsEntry raw entry h =
      let s = parsers.trim raw in
      elim (Bool-cases (nat_beq (length s) 0)) [
        | inl empty ↦ absurd (ground (arith, h, empty))
        | inr full ↦ elim (Bool-cases (starts_with_slash s)) [
          | inr bare ↦ elim (Option-cases (split_once s)) [
            | inl e ↦ network_of-IsEntry s none entry (ground (arith, h, full, bare, e))
            | inr ((ip_part, prefix_part), e) ↦
                network_of-IsEntry ip_part (some prefix_part) entry
                  (ground (arith, h, full, bare, e))
          ]
          | inl slash ↦ elim (Option-cases (parsers.parse_multiaddr s)) [
            | inl e ↦ absurd (ground (arith, h, full, slash, e))
            | inr (all, e) ↦ elim (Bool-cases (has_circuit all)) [
              | inl relay ↦ absurd (ground (arith, h, full, slash, e, relay))
              | inr direct ↦
                  check_body-IsEntry (split_peer all none).0 (split_peer all none).1 entry
                    (ground (arith, h, full, slash, e, direct))
            ]
          ]
        ]
      ]

  parse_items-IsEntry :
      (items : List Text) (entries : List AllowEntry)
      → parse_items parsers items ≡ ok entries
      → All IsEntry entries
  unfolding parse_items
  parse_items-IsEntry [] entries h = subst (All IsEntry) (ok_eq h) tt
  parse_items-IsEntry (item ∷ items) entries h =
      elim (Bool-cases (nat_beq (length (parsers.trim item)) 0)) [
        | inl blank ↦ parse_items-IsEntry items entries (ground (arith, h, blank))
        | inr full ↦ elim (Result-cases (from_str parsers item)) [
          | inr (x, e) ↦ absurd (ground (arith, h, full, e))
          | inl (entry, e) ↦ elim (Result-cases (parse_items parsers items)) [
            | inr (x, l) ↦ absurd (ground (arith, h, full, e, l))
            | inl (rest, l) ↦
                let made : ◌≡◌ {A = Result PolicyParseError (List AllowEntry)} (ok (entry ∷ rest))
                    (ok entries) =
                  ground (arith, h, full, e, l) in
                subst (All IsEntry) (ok_eq made)
                  (from_str-IsEntry item entry e, parse_items-IsEntry items rest l)
          ]
        ]
      ]

  -- The entries of a list that parses are not none, and each is a network with its host bits
  -- cleared and a prefix within its family's bits, or a host with nothing after it, a TCP port, a
  -- UDP port or QUIC on a UDP port, of which no port is zero.
  pub parse-IsEntry :
      (items : List Text) (entries : List AllowEntry)
      → parse parsers items ≡ ok (some entries)
      → All IsEntry entries × (0 < length entries)
  unfolding parse
  parse-IsEntry items entries h = elim (Result-cases (parse_items parsers items)) [
    | inr (x, e) ↦ absurd (ground (arith, h, e))
    | inl (found, e) ↦ elim (Bool-cases (nat_beq (length found) 0)) [
      | inl nothing ↦ absurd (ground (arith, h, e, nothing))
      | inr some_found ↦
          let made : ◌≡◌ {A = Result PolicyParseError (Option (List AllowEntry))} (ok (some found))
              (ok (some entries)) =
            ground (arith, h, e, some_found) in
          let same : found ≡ entries = some_eq (ok_eq made) in
          (
            subst (All IsEntry) same (parse_items-IsEntry items found e),
            subst (λ (xs : List AllowEntry). 0 < length xs) same (ground (arith, some_found)),
          )
    ]
  ]
