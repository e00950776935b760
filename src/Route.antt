-- ===== src/Route.antt =====
-- crates/sum-node/src/download_route.rs and crates/sum-node/src/download_v2_routing.rs: which way a
-- download goes, which archives a chunk is asked of and in what order, and which manifest is taken.
-- The RPC client's answers are parameters. A `BTreeSet` is its elements in ascending order.
pub mod Order
pub mod View
mod Examples
use storage_node_interface_p.Prelude.{
  ℕ, zero, suc, ◌+◌, Bool, true, false, not, Option, none, some, List, [], ◌∷◌, length, nat_beq,
  if◌then◌else◌, Result, ok, err,
}
use storage_node_interface_p.Prelude.Eq.{◌==◌, nat_eq, list_eq, contains}
use storage_node_interface_p.Prelude.Assoc.{Assoc, lookup, insert}
use storage_node_interface_p.Text.{Text}
use storage_node_interface_p.Merkle.{Bytes}
use storage_node_interface_p.Rendezvous.{Wire, insert_sorted, sort, assigned_archives}
use storage_node_interface_p.PushValidator.Ask.{
  External, Chain, StorageFileInfoV2, NodeRecordInfo, filter_active_archives,
  l1_address_from_base58,
}
use storage_node_interface_p.Attestor.{drop}

pub data DownloadPath : Type 0 where
  v1_legacy : DownloadPath
  v2_public : DownloadPath
  v2_private : DownloadPath

pub data RouteError : Type 0 where
  unknown_v2_visibility : ℕ → RouteError

unfoldable pub route_download_target : Option StorageFileInfoV2 → Result RouteError DownloadPath
route_download_target none = ok v1_legacy
route_download_target (some info) =
    if nat_beq info.visibility 0
    then ok v2_public
    else if nat_beq info.visibility 1
    then ok v2_private
    else err (unknown_v2_visibility info.visibility)

pub record V2AssignmentView : Type 0 where
  pub snapshot : List ℕ
  pub r : ℕ
  pub distinct_assigned : List ℕ
  pub per_chunk_assigned : Assoc ℕ (List ℕ)

pub data V2AssignmentError : Type 0 where
  snapshot_failed : ℕ → Text → V2AssignmentError
  snapshot_addr_parse : Text → V2AssignmentError
  snapshot_empty : ℕ → V2AssignmentError
  chain_params : Text → V2AssignmentError
  -- chunk_index, snapshot_len and r
  empty_assigned_set : ℕ → ℕ → ℕ → V2AssignmentError

module _ (ext : External) where
  -- The loop over the records.
  unfoldable pub parse_addresses : List NodeRecordInfo → Result V2AssignmentError (List ℕ)
  parse_addresses [] = ok []
  parse_addresses (n ∷ records) =
      let later = parse_addresses records in
      elim (l1_address_from_base58 ext n.address) [
        | none ↦ err (snapshot_addr_parse n.address)
        | some addr ↦ elim later [ err e ↦ err e | ok rest ↦ ok (addr ∷ rest) ]
      ]

  -- `BTreeSet::insert` of every address.
  unfoldable pub insert_all : List ℕ → List ℕ → List ℕ
  insert_all [] set = set
  insert_all (addr ∷ assigned) set =
      insert_all assigned (if contains set addr then set else insert_sorted addr set)

  -- The loop over the chunk indices.
  unfoldable pub assign_all :
      Bytes
      → List ℕ
      → ℕ
      → List ℕ
      → List ℕ
      → Assoc ℕ (List ℕ)
      → Result V2AssignmentError V2AssignmentView
  assign_all merkle_root snapshot r [] distinct per_chunk = ok record {
    snapshot = snapshot;
    r = r;
    distinct_assigned = distinct;
    per_chunk_assigned = per_chunk;
  }
  assign_all merkle_root snapshot r (chunk_index ∷ indices) distinct per_chunk =
      let assigned = assigned_archives ext.wire merkle_root snapshot chunk_index r in
      if nat_beq (length assigned) 0
      then err (empty_assigned_set chunk_index (length snapshot) r)
      else assign_all merkle_root snapshot r indices (insert_all assigned distinct)
          (insert chunk_index assigned per_chunk)

  -- Once the addresses are parsed. The parameter is what `chain_getChainParams` says of the
  -- replication factor.
  unfoldable pub view_of :
      Result Text ℕ → ℕ → Bytes → List ℕ → List ℕ → Result V2AssignmentError V2AssignmentView
  view_of params height merkle_root snapshot chunk_indices =
      if nat_beq (length snapshot) 0 then err (snapshot_empty height) else elim params [
        | err e ↦ err (chain_params e)
        | ok r ↦ assign_all merkle_root snapshot r chunk_indices [] []
      ]

  unfoldable pub build_v2_assignment_view :
      Chain
      → Result Text ℕ
      → StorageFileInfoV2
      → Bytes
      → List ℕ
      → Result V2AssignmentError V2AssignmentView
  build_v2_assignment_view chain params info merkle_root chunk_indices =
      elim (chain.storage_get_active_nodes_at_height info.assignment_height) [
        | err e ↦ err (snapshot_failed info.assignment_height e)
        | ok records ↦ elim (parse_addresses (filter_active_archives records)) [
          | err e ↦ err e
          | ok snapshot ↦
              view_of params info.assignment_height merkle_root (sort snapshot) chunk_indices
        ]
      ]

-- The loop from position `pos` on.
unfoldable pub first_identified : Assoc ℕ ℕ → Bool → ℕ → List ℕ → Option (ℕ × ℕ)
first_identified addr_to_peer skip_unresolved pos [] = none
first_identified addr_to_peer skip_unresolved pos (addr ∷ rest) =
    let later = first_identified addr_to_peer skip_unresolved (pos + 1) rest in
    elim (lookup addr addr_to_peer) [
      | some peer_id ↦ some (pos, peer_id)
      | none ↦ if not skip_unresolved then none else later
    ]

unfoldable pub next_assigned_archive : List ℕ → ℕ → Assoc ℕ ℕ → Bool → Option (ℕ × ℕ)
next_assigned_archive order next addr_to_peer skip_unresolved =
    first_identified addr_to_peer skip_unresolved next (drop next order)

-- The element at the position, and the others.
unfoldable pub pull_out : ℕ → List ℕ → Option (ℕ × List ℕ)
pull_out n [] = none
pull_out zero (x ∷ xs) = some (x, xs)
pull_out (suc n) (x ∷ xs) = elim (pull_out n xs) [ none ↦ none | some (y, ys) ↦ some (y, x ∷ ys) ]

-- `order[next..=pos].rotate_right(1)`: the element at `pos` moves to `next`, past those between. The
-- order is left as it is where the source has no such slice.
unfoldable pub rotate : ℕ → ℕ → List ℕ → List ℕ
rotate zero pos order = elim (pull_out pos order) [ none ↦ order | some (x, rest) ↦ x ∷ rest ]
rotate (suc next) (suc pos) (x ∷ xs) = x ∷ rotate next pos xs
rotate (suc next) pos order = order

unfoldable pub mark_archive_asked : List ℕ → ℕ → ℕ → List ℕ × ℕ
mark_archive_asked order next pos = (rotate next pos order, next + 1)
