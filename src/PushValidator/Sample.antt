-- ===== src/PushValidator/Sample.antt =====
-- Test data: a chain with a file of one chunk and one archive, with address 5.
use storage_node_interface_p.Prelude.{none, some, [], ◌∷◌, ◌++◌, ok, take, replicate}
use storage_node_interface_p.Prelude.Eq.{nat_eq, list_eq}
use storage_node_interface_p.Merkle.{Bytes}
use storage_node_interface_p.Merkle.Sample.{digest, leaf_one}
use storage_node_interface_p.Text.{text, hex_root}
use storage_node_interface_p.Rendezvous.{presorted_addresses}
use storage_node_interface_p.Manifest.{parse_pairs}
use storage_node_interface_p.PushValidator.Ask.{External, Chain, StorageFileInfoV2, NodeRecordInfo}

abbrev pub address : Bytes
address = replicate 19 0 ++ (5 ∷ [])

abbrev pub external : External
external = record {
  blake3 = digest;
  hex_encode = hex_root;
  hex_decode = parse_pairs;
  bs58_decode = λ s. some s;
  wire = record {
    wire_assigned_archives =
        λ root snapshot chunk replicas. take replicas (presorted_addresses snapshot);
    wire_assigned_archives_presorted = λ root presorted chunk replicas. take replicas presorted;
  };
}

abbrev pub row : StorageFileInfoV2
row = record {
  merkle_root = text "0x" ++ hex_root leaf_one;
  owner = text "owner";
  plaintext_size_bytes = 1;
  stored_size_bytes = 1;
  chunk_count = 1;
  fee_pool = 0;
  created_at = 10;
  activated_at_height = none;
  abandoned_at_height = none;
  assignment_height = 10;
  visibility = 0;
  lifecycle = 0;
  access_list = [];
}

abbrev pub archive : NodeRecordInfo
archive = record {
  address = address ++ take 4 (digest (digest address));
  role = text "ArchiveNode";
  staked_balance = 1;
  status = text "Active";
  registered_at = 1;
}

abbrev pub chain : Chain
chain = record {
  storage_get_file_info_v2 = λ hex. ok (some row);
  storage_get_active_nodes_at_height = λ height. ok (archive ∷ []);
  latest_assignment_epoch = λ hex. ok none;
}
