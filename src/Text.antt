-- ===== src/Text.antt =====
-- Strings as the list of their bytes, and the hexadecimal digits of a hash.
use Prim.Native.String.{String}
use Prim.Native.Char.{code}
use storage_node_interface_p.Prelude.{
  ℕ, ◌+◌, ◌-◌, ◌/◌, ◌%◌, Option, none, some, List, [], ◌∷◌, ltb, nat_beq, if◌then◌else◌,
}

abbrev pub Text : Type 0
Text = List ℕ

-- The bytes of an ASCII literal.
abbrev pub text : String → Text
text String.[] = []
text (String.◌∷◌ c s) = code c ∷ text s

-- `str::strip_prefix`
unfoldable pub strip_prefix : Text → Text → Option Text
strip_prefix [] s = some s
strip_prefix (p ∷ ps) [] = none
strip_prefix (p ∷ ps) (c ∷ cs) = if nat_beq p c then strip_prefix ps cs else none

-- A digit of `{:02x}`.
unfoldable pub hex_digit : ℕ → ℕ
hex_digit d = if ltb d 10 then b'0' + d else b'a' + d - 10

-- crates/sum-net/src/correlation.rs, `hex_root`: two lowercase digits for each byte.
unfoldable pub hex_root : List ℕ → Text
hex_root [] = []
hex_root (b ∷ bs) = hex_digit (b / 16) ∷ hex_digit (b % 16) ∷ hex_root bs
