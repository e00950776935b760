-- ===== src/Manifest/HexRoot.antt =====
-- The parser of a manifest's root against the printer of roots.
use storage_node_interface_p.Prelude.{
  ℕ, ◌*◌, ◌/◌, ◌%◌, ◌<◌, ◌≡◌, ◌≢◌, refl, ap, false, some, [], ◌∷◌, arith, length, All, nat_beq,
  any_by,
}
use storage_node_interface_p.Merkle.{Bytes}
use storage_node_interface_p.Text.{Text, hex_digit, hex_root}
use storage_node_interface_p.Manifest.{
  digit_value, parse_pair, is_ascii_uppercase, parse_pairs, hex_to_32,
}

digit_value-hex_digit : (d : ℕ) → d < 16 → digit_value (hex_digit d) ≡ some d
unfolding digit_value hex_digit
digit_value-hex_digit d h = ground arith

hex_digit-ne-plus : (d : ℕ) → nat_beq (hex_digit d) b'+' ≡ false
unfolding hex_digit
hex_digit-ne-plus d = ground arith

hex_digit-lower : (d : ℕ) → d < 16 → is_ascii_uppercase (hex_digit d) ≡ false
unfolding hex_digit is_ascii_uppercase
hex_digit-lower d h = ground arith

parse_pair-hex : (b : ℕ) → b < 256 → parse_pair (hex_digit (b / 16)) (hex_digit (b % 16)) ≡ some b
unfolding parse_pair
parse_pair-hex b h =
    rw
      (
        hex_digit-ne-plus (b / 16),
        digit_value-hex_digit (b / 16) (omega arith),
        digit_value-hex_digit (b % 16) (omega arith),
      )
      (ap some (omega arith))

parse_pairs-cons :
    (a b x : ℕ) (rest : Text) (xs : Bytes)
    → parse_pair a b ≡ some x
    → parse_pairs rest ≡ some xs
    → parse_pairs (a ∷ b ∷ rest) ≡ some (x ∷ xs)
unfolding parse_pairs
parse_pairs-cons a b x rest xs e f = ground arith

hex_to_32-parsed :
    (hex : Text) (bs : Bytes)
    → length hex ≡ 64
    → any_by is_ascii_uppercase hex ≡ false
    → parse_pairs hex ≡ some bs
    → hex_to_32 hex ≡ some bs
unfolding hex_to_32
hex_to_32-parsed hex bs n lower e = ground arith

parse_pair_plus : (d : ℕ) → d < 16 → parse_pair b'+' (hex_digit d) ≡ some d
unfolding parse_pair
parse_pair_plus d h = digit_value-hex_digit d h

hex_root_plus : (d : ℕ) (bs : Bytes) (rest : Text) → b'+' ∷ rest ≢ hex_root (d ∷ bs)
unfolding hex_root
hex_root_plus d bs rest e = ground (arith, hex_digit-ne-plus (d / 16))

plus_lower : is_ascii_uppercase b'+' ≡ false
unfolding is_ascii_uppercase
plus_lower = refl

parse_pairs-hex_root : (bs : Bytes) → All (λ b. b < 256) bs → parse_pairs (hex_root bs) ≡ some bs
unfolding parse_pairs hex_root
parse_pairs-hex_root [] h = refl
parse_pairs-hex_root (b ∷ bs) h =
    parse_pairs-cons _ _ b (hex_root bs) bs (parse_pair-hex b h.0) (parse_pairs-hex_root bs h.1)

length-hex_root : (bs : Bytes) → length (hex_root bs) ≡ 2 * length bs
unfolding hex_root
length-hex_root [] = refl
length-hex_root (b ∷ bs) = omega (arith, length-hex_root bs)

hex_root-lower :
    (bs : Bytes) → All (λ b. b < 256) bs → any_by is_ascii_uppercase (hex_root bs) ≡ false
unfolding hex_root
hex_root-lower [] h = refl
hex_root-lower (b ∷ bs) h =
    rw (hex_digit-lower (b / 16) (omega arith), hex_digit-lower (b % 16) (omega arith))
      (hex_root-lower bs h.1)

-- The lowercase hex of 32 bytes parses back to those bytes.
pub hex_to_32-hex_root :
    (bs : Bytes) → length bs ≡ 32 → All (λ b. b < 256) bs → hex_to_32 (hex_root bs) ≡ some bs
hex_to_32-hex_root bs n h =
    hex_to_32-parsed (hex_root bs) bs (omega (arith, length-hex_root bs)) (hex_root-lower bs h)
      (parse_pairs-hex_root bs h)

-- For 32 bytes of which the first is below 16, the hex with a `+` for the first digit is also
-- parsed to those bytes, and is not the hex of them.
pub hex_to_32_plus :
    (d : ℕ) (bs : Bytes)
    → d < 16
    → length bs ≡ 31
    → All (λ b. b < 256) bs
    → (hex_to_32 (b'+' ∷ hex_digit d ∷ hex_root bs) ≡ some (d ∷ bs))
      × (b'+' ∷ hex_digit d ∷ hex_root bs ≢ hex_root (d ∷ bs))
hex_to_32_plus d bs h n all = (
  hex_to_32-parsed (b'+' ∷ hex_digit d ∷ hex_root bs) (d ∷ bs) (omega (arith, length-hex_root bs))
      (rw (plus_lower, hex_digit-lower d h) (hex_root-lower bs all))
      (parse_pairs-cons b'+' (hex_digit d) d (hex_root bs) bs (parse_pair_plus d h)
        (parse_pairs-hex_root bs all)),
  hex_root_plus d bs _,
)
