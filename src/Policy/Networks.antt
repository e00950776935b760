-- ===== src/Policy/Networks.antt =====
-- Networks: an address is in one when the first bits agree.
use native.Mathlib.Nat.{eq_of_mul-eq-mul_right, div-eq_of_lt, mul-div_cancel, one-le-pow}
use storage_node_interface_p.Prelude.{
  ℕ, ◌+◌, ◌-◌, ◌*◌, ◌/◌, ◌%◌, ◌^◌, ◌<◌, ◌≡◌, refl, sym, ap, ◌∙◌, true, false, inl, inr, none, some,
  nat_beq, nat_beq_iff, if◌then◌else◌, Bool-cases, arith,
}
use storage_node_interface_p.Policy.{
  IpAddr, v4, v6, mask_bits, mask, ip_beq, to_ipv4_mapped, network_contains,
}

pow_pos : (n : ℕ) → 0 < 2 ^ n
pow_pos n = omega (arith, one-le-pow n 2 (omega arith))

-- The first bits of a number of so many bits, as a number.
abbrev pub first_bits : ℕ → ℕ → ℕ → ℕ
first_bits width len x = x / 2 ^ (width - len)

same_multiple : (a b k : ℕ) → 0 < k → nat_beq (a * k) (b * k) ≡ nat_beq a b
same_multiple a b k pos = elim (Bool-cases (nat_beq a b)) [
  | inl same ↦
      let e = (nat_beq_iff a b).0 same in
      let multiples : a * k ≡ b * k = ap (λ (x : ℕ). x * k) e in
      (nat_beq_iff (a * k) (b * k)).1 multiples ∙ sym same
  | inr differs ↦ elim (Bool-cases (nat_beq (a * k) (b * k))) [
    | inl same ↦
        let e : a ≡ b = eq_of_mul-eq-mul_right k pos a b ((nat_beq_iff (a * k) (b * k)).0 same) in
        same ∙ sym ((nat_beq_iff a b).1 e)
    | inr apart ↦ apart ∙ sym differs
  ]
]

nat_beq_refl : (a : ℕ) → nat_beq a a ≡ true
nat_beq_refl a = (nat_beq_iff a a).1 refl

first_bits_zero : (width len x : ℕ) → len ≡ 0 → x < 2 ^ width → first_bits width len x ≡ 0
first_bits_zero width len x z small =
    let all : width - len ≡ width = omega (arith, z) in
    ap (λ (l : ℕ). x / 2 ^ l) all ∙ div-eq_of_lt small

-- Masked numbers are the same when the first bits are.
nat_beq-mask_bits :
    (width len a b : ℕ)
    → a < 2 ^ width
    → b < 2 ^ width
    → nat_beq (mask_bits width len a) (mask_bits width len b)
      ≡ nat_beq (first_bits width len a) (first_bits width len b)
unfolding mask_bits
nat_beq-mask_bits width len a b sa sb = elim (Bool-cases (nat_beq len 0)) [
  | inl z ↦
      let l = (nat_beq_iff len 0).0 z in
      let bits : first_bits width len a ≡ first_bits width len b =
        first_bits_zero width len a l sa ∙ sym (first_bits_zero width len b l sb) in
      ground (arith, z)
      ∙ sym ((nat_beq_iff (first_bits width len a) (first_bits width len b)).1 bits)
  | inr more ↦ rw (more) (
      same_multiple (first_bits width len a) (first_bits width len b) (2 ^ (width - len))
        (pow_pos (width - len)))
]

-- A mask applied again changes nothing.
mask_bits_twice :
    (width len x : ℕ) → mask_bits width len (mask_bits width len x) ≡ mask_bits width len x
unfolding mask_bits
mask_bits_twice width len x = elim (Bool-cases (nat_beq len 0)) [
  | inl z ↦ ground (arith, z)
  | inr more ↦ rw (more) (
      ap (λ (q : ℕ). q * 2 ^ (width - len))
        (mul-div_cancel (x / 2 ^ (width - len)) (pow_pos (width - len))))
]

pub mask_twice : (addr : IpAddr) (len : ℕ) → mask (mask addr len) len ≡ mask addr len
unfolding mask
mask_twice (v4 a) len = ap v4 (mask_bits_twice 32 len a)
mask_twice (v6 a) len = ap v6 (mask_bits_twice 128 len a)

-- `::ffff:a.b.c.d`
abbrev pub mapped : ℕ → ℕ
mapped ip = 0xffff_0000_0000 + ip

to_ipv4_mapped-mapped : (ip : ℕ) → ip < 2 ^ 32 → to_ipv4_mapped (mapped ip) ≡ some ip
unfolding to_ipv4_mapped
to_ipv4_mapped-mapped ip small =
    let high : mapped ip / 2 ^ 32 ≡ 0xffff = omega arith in
    let low : mapped ip % 2 ^ 32 ≡ ip = omega arith in
    let marked : nat_beq (mapped ip / 2 ^ 32) 0xffff ≡ true =
      (nat_beq_iff (mapped ip / 2 ^ 32) 0xffff).1 high in
    ap (λ b. if b then some (mapped ip % 2 ^ 32) else none) marked ∙ ap some low

-- An IPv4 or IPv6 network contains an address of its family exactly when their first bits, as many
-- as the prefix, agree; and an IPv4 network contains an IPv4-mapped IPv6 address exactly when it
-- contains the IPv4 address.
pub network_contains-first_bits :
    (len net ip : ℕ)
    → ((net < 2 ^ 32)
        → (ip < 2 ^ 32)
        → network_contains (mask (v4 net) len) len (v4 ip)
          ≡ nat_beq (first_bits 32 len ip) (first_bits 32 len net))
      × ((net < 2 ^ 128)
          → (ip < 2 ^ 128)
          → network_contains (mask (v6 net) len) len (v6 ip)
            ≡ nat_beq (first_bits 128 len ip) (first_bits 128 len net))
      × ((net < 2 ^ 32)
          → (ip < 2 ^ 32)
          → network_contains (mask (v4 net) len) len (v6 (mapped ip))
            ≡ nat_beq (first_bits 32 len ip) (first_bits 32 len net))
unfolding network_contains mask
network_contains-first_bits len net ip = (
  λ sn si. nat_beq-mask_bits 32 len ip net si sn,
  λ sn si. nat_beq-mask_bits 128 len ip net si sn,
  λ sn si.
      ap (λ o. elim o [ none ↦ false | some a ↦ ip_beq (mask (v4 a) len) (mask (v4 net) len) ])
        (to_ipv4_mapped-mapped ip si)
      ∙ nat_beq-mask_bits 32 len ip net si sn,
)
