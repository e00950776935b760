-- ===== src/PushValidator/Rows.antt =====
-- What the questions to the chain accept for an answer, said of the chain's own replies.
use storage_node_interface_p.Prelude.{
  ℕ, ◌≤◌, ◌≡◌, ◌⊎◌, sym, ap, subst, ◌∙◌, Bool, ◌||◌, true, false, ◌&&◌, Option, none, some, List,
  [], ◌∷◌, ltb, nat_beq, any_by, ok, arith, Result-cases, Option-cases, Bool-cases, inl, inr,
}
use storage_node_interface_p.Prelude.Eq.{◌==◌, nat_eq, list_eq, list_beq_iff, contains}
use storage_node_interface_p.Merkle.{Bytes}
use storage_node_interface_p.Text.{text}
use storage_node_interface_p.Rendezvous.{presorted_addresses}
use storage_node_interface_p.Rendezvous.Snapshot.{
  IsStrict, contains-presorted_addresses, presorted_addresses-IsStrict,
}
use storage_node_interface_p.PushValidator.Ask.{
  External, Chain, StorageFileInfoV2, NodeRecordInfo, is_active_archive, filter_active_archives,
  l1_address_from_base58, decode_root_hex, root_text, ask_file_info, ask_epoch, decode_addresses,
  ask_snapshot,
}

-- The chain answers with this row, which names the root that was asked for.
abbrev pub HasRow : External → Chain → Bytes → StorageFileInfoV2 → Type 0
HasRow ext chain root info =
    (chain.storage_get_file_info_v2 (root_text ext root) ≡ ok (some info))
    × (decode_root_hex ext info.merkle_root ≡ some root)

-- The chain lists this epoch as the file's latest, and it is no lower than the row's assignment
-- height; or it lists none, and the epoch is that height.
abbrev pub HasEpoch : External → Chain → Bytes → StorageFileInfoV2 → ℕ → Type 0
HasEpoch ext chain root info epoch =
    ((chain.latest_assignment_epoch (root_text ext root) ≡ ok (some epoch))
      × (info.assignment_height ≤ epoch))
    ⊎ ((chain.latest_assignment_epoch (root_text ext root) ≡ ok none)
        × (epoch ≡ info.assignment_height))

module _ (ext : External) (chain : Chain) (root : Bytes) (info : StorageFileInfoV2) where
  pub ask_file_info-HasRow : ask_file_info ext chain root ≡ ok info → HasRow ext chain root info
  unfolding ask_file_info
  ask_file_info-HasRow h =
      elim (Result-cases (chain.storage_get_file_info_v2 (root_text ext root))) [
        | inr (e, failed) ↦ absurd (ground (arith, failed))
        | inl (none, found) ↦ absurd (ground (arith, found))
        | inl (some row, found) ↦ elim (Option-cases (decode_root_hex ext row.merkle_root)) [
          | inl odd ↦ absurd (ground (arith, found, odd))
          | inr (returned, named) ↦ elim (Bool-cases (returned == root)) [
            | inr other ↦ absurd (ground (arith, found, named, other))
            | inl same ↦
                let own : row ≡ info = ground (arith, found, named, same) in
                (
                  found ∙ ap (λ r. ok (some r)) own,
                  ap (λ (r : StorageFileInfoV2). decode_root_hex ext r.merkle_root) (sym own)
                      ∙ named
                      ∙ ap some ((list_beq_iff returned root).0 same),
                )
          ]
        ]
      ]

  pub ask_epoch-HasEpoch :
      (epoch : ℕ) → ask_epoch ext chain root info ≡ ok epoch → HasEpoch ext chain root info epoch
  unfolding ask_epoch
  ask_epoch-HasEpoch epoch h =
      elim (Result-cases (chain.latest_assignment_epoch (root_text ext root))) [
        | inr (e, failed) ↦ absurd (ground (arith, failed))
        | inl (none, found) ↦ inr (found, ground (arith, found))
        | inl (some latest, found) ↦ elim (Bool-cases (ltb latest info.assignment_height)) [
          | inl low ↦ absurd (ground (arith, found, low))
          | inr fits ↦
              let same : latest ≡ epoch = ground (arith, found, fits) in
              inl (found ∙ ap (λ k. ok (some k)) same, ground (arith, fits, same))
        ]
      ]

abbrev names : Option ℕ → ℕ → Bool
names none z = false
names (some address) z = nat_beq address z

skipped : (a b c rest : Bool) → (a && b) ≡ false → (a && b && c || rest) ≡ rest
skipped a b c rest h = ground arith

taken : (a b c : Bool) → (a && b) ≡ true → (a && b && c) ≡ c
taken a b c h = ground arith

module _ (ext : External) where
  -- The record is of an active archive with that address.
  abbrev pub is_archive_at : ℕ → NodeRecordInfo → Bool
  is_archive_at z node =
      node.role == text "ArchiveNode"
      && node.status == text "Active"
      && names (l1_address_from_base58 ext node.address) z

  -- The addresses, ascending and without repeats, are those of the active archives among the records
  -- that the chain answers with for the height.
  abbrev pub HasSnapshot : Chain → ℕ → List ℕ → Type 0
  HasSnapshot chain height s =
      (raw : List NodeRecordInfo) × (chain.storage_get_active_nodes_at_height height ≡ ok raw)
      × IsStrict 0 s
      × ((z : ℕ) → contains s z ≡ any_by (is_archive_at z) raw)

  -- The filter, then the loop, on a record whose test and whose address are known.
  contains-decode_addresses :
      (raw : List NodeRecordInfo) (addresses : List ℕ) (z : ℕ)
      → decode_addresses ext (filter_active_archives raw) ≡ ok addresses
      → contains addresses z ≡ any_by (is_archive_at z) raw
  unfolding decode_addresses filter_active_archives is_active_archive
  contains-decode_addresses [] addresses z h = ground (arith, h)
  contains-decode_addresses (node ∷ raw) addresses z h =
      let is_role = node.role == text "ArchiveNode" in
      let is_status = node.status == text "Active" in
      let mine = names (l1_address_from_base58 ext node.address) z in
      let later = any_by (is_archive_at z) raw in
      elim (Bool-cases (node.role == text "ArchiveNode" && node.status == text "Active")) [
        | inr passed_over ↦
            contains-decode_addresses raw addresses z (rw passed_over at h)
            ∙ sym (skipped is_role is_status mine later passed_over)
        | inl kept ↦
            let all = rw kept at h in
            elim (Option-cases (l1_address_from_base58 ext node.address)) [
              | inl odd ↦ absurd (ground (arith, all, odd))
              | inr (a, named) ↦
                  elim (Result-cases (decode_addresses ext (filter_active_archives raw))) [
                    | inr (e, failed) ↦ absurd (ground (arith, all, named, failed))
                    | inl (rest, made) ↦
                        let here : a ∷ rest ≡ addresses = ground (arith, all, named, made) in
                        ap (λ t. contains t z) (sym here)
                        ∙ ap (λ t. nat_beq a z || t) (contains-decode_addresses raw rest z made)
                        ∙ ap (λ t. t || any_by (is_archive_at z) raw)
                            (sym (taken is_role is_status mine kept ∙ ap (λ o. names o z) named))
                  ]
            ]
      ]

  pub ask_snapshot-HasSnapshot :
      (chain : Chain) (height : ℕ) (s : List ℕ)
      → ask_snapshot ext chain height ≡ ok s
      → HasSnapshot chain height s
  unfolding ask_snapshot
  ask_snapshot-HasSnapshot chain height s h =
      elim (Result-cases (chain.storage_get_active_nodes_at_height height)) [
        | inr (e, failed) ↦ absurd (ground (arith, failed))
        | inl (raw, found) ↦
            elim (Result-cases (decode_addresses ext (filter_active_archives raw))) [
              | inr (e, failed) ↦ absurd (ground (arith, found, failed))
              | inl (decoded, made) ↦
                  let own : presorted_addresses decoded ≡ s = ground (arith, found, made) in
                  (
                    raw,
                    found,
                    subst (IsStrict 0) own (presorted_addresses-IsStrict decoded),
                    λ z.
                        ap (λ t. contains t z) (sym own)
                        ∙ contains-presorted_addresses z decoded
                        ∙ contains-decode_addresses raw decoded z made,
                  )
            ]
      ]
