-- ===== src/Codec/Frame.antt =====
-- crates/sum-net/src/codec.rs: `[u32 BE length][payload]` frames.
use storage_node_interface_p.Prelude.{
  ℕ, zero, suc, ◌^◌, [], ◌∷◌, ◌++◌, length, ltb, leb, if◌then◌else◌, Result, ok, err,
}
use storage_node_interface_p.Merkle.{Bytes}
use storage_node_interface_p.Assignment.{to_be_bytes, from_be_bytes}

pub data IoError : Type 0 where
  unexpected_eof : IoError
  -- the length that the prefix states
  too_large : ℕ → IoError
  exceeds_u32 : ℕ → IoError

-- `read_exact`: so many bytes and the bytes after them.
unfoldable pub read_exact : ℕ → Bytes → Result IoError (Bytes × Bytes)
read_exact zero io = ok ([], io)
read_exact (suc n) [] = err unexpected_eof
read_exact (suc n) (b ∷ io) = elim (read_exact n io) [
  | ok (buf, rest) ↦ ok (b ∷ buf, rest)
  | err e ↦ err e
]

unfoldable pub read_length_prefixed : ℕ → Bytes → Result IoError (Bytes × Bytes)
read_length_prefixed max_bytes io = elim (read_exact 4 io) [
  | err e ↦ err e
  | ok (len_buf, rest) ↦
      let len = from_be_bytes 0 len_buf in
      if ltb max_bytes len then err (too_large len) else read_exact len rest
]

unfoldable pub write_length_prefixed : Bytes → Result IoError Bytes
write_length_prefixed payload =
    if leb (2 ^ 32) (length payload)
    then err (exceeds_u32 (length payload))
    else ok (to_be_bytes (length payload) ++ payload)
