-- ===== src/Codec/RoundTrip.antt =====
-- What is written as a frame is read back, and nothing larger than the reader's limit is accepted.
use mathlib.Core.List.{append_assoc}
use storage_node_interface_p.Prelude.{
  ℕ, zero, suc, ◌+◌, ◌^◌, ◌≤◌, ◌<◌, ◌≡◌, refl, ap, false, [], ◌∷◌, ◌++◌, arith, length, ltb, leb,
  ok, Result-cases, Bool-cases, length-append, inl, inr,
}
use storage_node_interface_p.Merkle.{Bytes}
use storage_node_interface_p.Assignment.{to_be_bytes, from_be_bytes}
use storage_node_interface_p.Codec.Frame.{read_exact, read_length_prefixed, write_length_prefixed}

from_be_bytes-to_be_bytes : (x : ℕ) → x < 2 ^ 32 → from_be_bytes 0 (to_be_bytes x) ≡ x
unfolding from_be_bytes to_be_bytes
from_be_bytes-to_be_bytes x h = omega arith

ltb→leb_false : (a b : ℕ) → a < b → leb b a ≡ false
ltb→leb_false a b h = ground arith

le→ltb_false : (a b : ℕ) → a ≤ b → ltb b a ≡ false
le→ltb_false a b h = ground arith

length-to_be_bytes : (x : ℕ) → length (to_be_bytes x) ≡ 4
unfolding to_be_bytes
length-to_be_bytes x = refl

read_exact-append :
    (n : ℕ) (buf rest : Bytes) → length buf ≡ n → read_exact n (buf ++ rest) ≡ ok (buf, rest)
unfolding read_exact
read_exact-append zero [] rest h = refl
read_exact-append zero (b ∷ buf) rest h = absurd (omega arith)
read_exact-append (suc n) [] rest h = absurd (omega arith)
read_exact-append (suc n) (b ∷ buf) rest h = rw (read_exact-append n buf rest (omega arith))

read_exact-splits :
    (n : ℕ) (io buf rest : Bytes)
    → read_exact n io ≡ ok (buf, rest)
    → (length buf ≡ n) × (buf ++ rest ≡ io)
unfolding read_exact
read_exact-splits zero io buf rest e = ground arith
read_exact-splits (suc n) [] buf rest e = absurd (ground arith)
read_exact-splits (suc n) (b ∷ io) buf rest e = elim (Result-cases (read_exact n io)) [
  | inr (why, failed) ↦ absurd (ground arith)
  | inl ((buf', rest'), got) ↦
      let (len, whole) = read_exact-splits n io buf' rest' got in ground (arith, len, whole)
]

-- A payload of fewer than 2^32 bytes and within the reader's limit is written as a frame that
-- reads back to the payload, and the bytes after the frame are left.
pub read-write :
    (max_bytes : ℕ) (payload rest : Bytes)
    → length payload < 2 ^ 32
    → length payload ≤ max_bytes
    → (frame : Bytes) × (write_length_prefixed payload ≡ ok frame)
      × (read_length_prefixed max_bytes (frame ++ rest) ≡ ok (payload, rest))
unfolding write_length_prefixed read_length_prefixed
read-write max_bytes payload rest h k =
    let n = length payload in
    let prefix = from_be_bytes-to_be_bytes n h in
    let got = read_exact-append n payload rest refl in
    let start = read_exact-append 4 (to_be_bytes n) (payload ++ rest) (length-to_be_bytes n) in
    (
      to_be_bytes n ++ payload,
      rw (ltb→leb_false n (2 ^ 32) h),
      rw (append_assoc (to_be_bytes n) payload rest)
          (rw (start, read_length_prefixed) (rw (prefix, le→ltb_false n max_bytes k) got)),
    )

-- What is read from a frame is no longer than the limit, and the input is the prefix's four bytes,
-- the payload and the rest.
pub read_length_prefixed-bounded :
    (max_bytes : ℕ) (io buf rest : Bytes)
    → read_length_prefixed max_bytes io ≡ ok (buf, rest)
    → (length buf ≤ max_bytes) × (length io ≡ 4 + length buf + length rest)
unfolding read_length_prefixed
read_length_prefixed-bounded max_bytes io buf rest e = elim (Result-cases (read_exact 4 io)) [
  | inr (why, failed) ↦ absurd (ground arith)
  | inl ((len_buf, later), got) ↦
      let len = from_be_bytes 0 len_buf in
      let (four, whole) = read_exact-splits 4 io len_buf later got in
      elim (Bool-cases (ltb max_bytes len)) [
        | inl large ↦ absurd (ground arith)
        | inr fits ↦
            let (size, all) = read_exact-splits len later buf rest (ground arith) in
            (
              ground arith,
              omega (
                arith,
                ap length whole,
                ap length all,
                length-append len_buf later,
                length-append buf rest,
              ),
            )
      ]
]
