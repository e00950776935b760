-- ===== src/PushValidator/Ask.antt =====
-- crates/sum-node/src/push_validator.rs: the questions to the chain and what is checked of the
-- answers, with the types of crates/sum-types/src/rpc_types.rs. The hash, hexadecimal and base58
-- encodings and the wire crate are external.
use storage_node_interface_p.Prelude.{
  ℕ, zero, suc, Bool, ◌&&◌, not, Option, none, some, List, [], ◌∷◌, ◌++◌, length, take, nat_beq,
  ltb, if◌then◌else◌, filter_by, Result, ok, err, ◌>>=◌,
}
use storage_node_interface_p.Prelude.Eq.{◌==◌, nat_eq, list_eq}
use storage_node_interface_p.Merkle.{Bytes}
use storage_node_interface_p.Text.{Text, text, strip_prefix}
use storage_node_interface_p.Assignment.{from_be_bytes}
use storage_node_interface_p.Rendezvous.{Wire, presorted_addresses}

pub record External : Type 0 where
  pub blake3 : Bytes → Bytes
  pub hex_encode : Bytes → Text
  pub hex_decode : Text → Option Bytes
  pub bs58_decode : Text → Option Bytes
  pub wire : Wire

pub record AccessEntryV2 : Type 0 where
  pub address : Text
  pub encrypted_key_bundle : Option Text
  pub expires_at : Option ℕ

pub record StorageFileInfoV2 : Type 0 where
  pub merkle_root : Text
  pub owner : Text
  pub plaintext_size_bytes : ℕ
  pub stored_size_bytes : ℕ
  pub chunk_count : ℕ
  pub fee_pool : ℕ
  pub created_at : ℕ
  pub activated_at_height : Option ℕ
  pub abandoned_at_height : Option ℕ
  pub assignment_height : ℕ
  pub visibility : ℕ
  pub lifecycle : ℕ
  pub access_list : List AccessEntryV2

unfoldable pub is_pending : ℕ → Bool
is_pending lifecycle = nat_beq lifecycle 0

unfoldable pub is_active : ℕ → Bool
is_active lifecycle = nat_beq lifecycle 1

unfoldable pub is_abandoned : ℕ → Bool
is_abandoned lifecycle = nat_beq lifecycle 2

pub record NodeRecordInfo : Type 0 where
  pub address : Text
  pub role : Text
  pub staked_balance : ℕ
  pub status : Text
  pub registered_at : ℕ

unfoldable pub is_active_archive : NodeRecordInfo → Bool
is_active_archive node = node.role == text "ArchiveNode" && node.status == text "Active"

unfoldable pub filter_active_archives : List NodeRecordInfo → List NodeRecordInfo
filter_active_archives records = filter_by is_active_archive records

pub data PushReject : Type 0 where
  unknown_root : Text → PushReject
  not_registered : Text → PushReject
  abandoned : PushReject
  -- chunk_index and chunk_count
  out_of_range : ℕ → ℕ → PushReject
  epoch_lookup : Text → PushReject
  snapshot_lookup : ℕ → Text → PushReject
  -- height
  not_in_snapshot : ℕ → PushReject
  -- chunk_index
  not_assigned : ℕ → PushReject
  bad_chain_shape : PushReject
  bad_proof : PushReject

-- The RPC client; an error is its text.
pub record Chain : Type 0 where
  pub storage_get_file_info_v2 : Text → Result Text (Option StorageFileInfoV2)
  pub storage_get_active_nodes_at_height : ℕ → Result Text (List NodeRecordInfo)
  pub latest_assignment_epoch : Text → Result Text (Option ℕ)

-- `unwrap_or`
abbrev without_prefix : Text → Option Text → Text
without_prefix hex_str none = hex_str
without_prefix hex_str (some s) = s

abbrev drop : ℕ → Bytes → Bytes
drop zero xs = xs
drop (suc n) [] = []
drop (suc n) (x ∷ xs) = drop n xs

module _ (ext : External) where
  -- crates/sum-net/src/identity.rs: 20 bytes and a checksum of 4.
  unfoldable pub l1_address_from_base58 : Text → Option ℕ
  l1_address_from_base58 s = elim (ext.bs58_decode s) [
    | none ↦ none
    | some decoded ↦
        if not (nat_beq (length decoded) 24)
        then none
        else if not (take 4 (ext.blake3 (ext.blake3 (take 20 decoded))) == drop 20 decoded)
        then none
        else some (from_be_bytes 0 (take 20 decoded))
  ]

  unfoldable pub decode_root_hex : Text → Option Bytes
  decode_root_hex hex_str =
      elim (ext.hex_decode (without_prefix hex_str (strip_prefix (text "0x") hex_str))) [
        | none ↦ none
        | some bytes ↦ if not (nat_beq (length bytes) 32) then none else some bytes
      ]

  unfoldable pub root_text : Bytes → Text
  root_text merkle_root = text "0x" ++ ext.hex_encode merkle_root

  unfoldable pub ask_file_info : Chain → Bytes → Result PushReject StorageFileInfoV2
  ask_file_info chain merkle_root = elim (chain.storage_get_file_info_v2 (root_text merkle_root)) [
    | err e ↦ err (unknown_root e)
    | ok none ↦ err (not_registered (root_text merkle_root))
    | ok (some info) ↦ elim (decode_root_hex info.merkle_root) [
      | none ↦ err bad_chain_shape
      | some returned ↦ if not (returned == merkle_root) then err bad_chain_shape else ok info
    ]
  ]

  unfoldable pub ask_epoch : Chain → Bytes → StorageFileInfoV2 → Result PushReject ℕ
  ask_epoch chain merkle_root info = elim (chain.latest_assignment_epoch (root_text merkle_root)) [
    | err e ↦ err (epoch_lookup e)
    | ok none ↦ ok info.assignment_height
    | ok (some latest) ↦
        if ltb latest info.assignment_height then err bad_chain_shape else ok latest
  ]

  -- The loop over the records.
  unfoldable pub decode_addresses : List NodeRecordInfo → Result PushReject (List ℕ)
  decode_addresses [] = ok []
  decode_addresses (node ∷ rest) =
      let later = decode_addresses rest in
      elim (l1_address_from_base58 node.address) [
        | none ↦ err bad_chain_shape
        | some address ↦ (later >>= λ addresses. ok (address ∷ addresses))
      ]

  unfoldable pub ask_snapshot : Chain → ℕ → Result PushReject (List ℕ)
  ask_snapshot chain height = elim (chain.storage_get_active_nodes_at_height height) [
    | err e ↦ err (snapshot_lookup height e)
    | ok raw ↦
        (decode_addresses (filter_active_archives raw) >>= λ decoded.
        ok (presorted_addresses decoded))
  ]
