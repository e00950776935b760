-- ===== src/Codec/Examples.antt =====
-- Concrete frames.
use storage_node_interface_p.Prelude.{◌≡◌, refl, [], ◌∷◌, ◌++◌, ok, err, arith}
use storage_node_interface_p.Merkle.{Bytes}
use storage_node_interface_p.Assignment.{from_be_bytes}
use storage_node_interface_p.Codec.Frame.{
  read_exact, read_length_prefixed, write_length_prefixed, too_large,
}
use storage_node_interface_p.Codec.RoundTrip.{read-write}

frame_too_large : read_length_prefixed 100 (0 ∷ 0 ∷ 1 ∷ 0 ∷ []) ≡ err (too_large 256)
unfolding read_length_prefixed read_exact from_be_bytes
frame_too_large = refl

abbrev two : Bytes
two = 5 ∷ 6 ∷ []

abbrev after : Bytes
after = 9 ∷ []

abbrev framed : Bytes
framed = 0 ∷ 0 ∷ 0 ∷ 2 ∷ 5 ∷ 6 ∷ 9 ∷ []

read-write_example :
    (frame : Bytes) × (write_length_prefixed two ≡ ok frame)
    × (read_length_prefixed 100 (frame ++ after) ≡ ok (two, after))
read-write_example = read-write 100 two after (omega arith) (omega arith)

two_bytes : read_length_prefixed 100 framed ≡ ok (two, after)
unfolding read_length_prefixed read_exact from_be_bytes
two_bytes = refl
