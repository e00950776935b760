-- ===== src/Audit/Verdict.antt =====
-- What the verdict of an audit says of the inventory.
use storage_node_interface_p.Prelude.{
  ℕ, ◌<◌, ◌≡◌, ◌↔◌, refl, ap, subst, ◌∙◌, Bool, true, false, ◌&&◌, List, [], ◌∷◌, map, length,
  nat_beq, any_by, Bool-cases, inl, inr, arith,
}
use storage_node_interface_p.Prelude.Eq.{◌==◌, nat_eq, list_eq, contains, list_beq_iff, ==_refl}
use storage_node_interface_p.Merkle.{Bytes}
use storage_node_interface_p.PushValidator.Ask.{External, Chain}
use storage_node_interface_p.Audit.{
  LocalStore, FileAudit, is_error, is_incomplete, complete, verdict_of, recheck_file, audit_roots,
  audit,
}
use storage_node_interface_p.Audit.Files.{is_fine, Answerable, file_after, fine_iff}

-- Every file is fine.
abbrev all_fine : List FileAudit → Bool
all_fine [] = true
all_fine (f ∷ fs) = is_fine f && all_fine fs

all_fine-none :
    (fs : List FileAudit)
    → (all_fine fs ≡ true) ↔ ((any_by is_error fs ≡ false) × (any_by is_incomplete fs ≡ false))
all_fine-none [] = (λ h. (refl, refl), λ h. refl)
all_fine-none (f ∷ fs) =
    (λ h. ground (arith, h, all_fine-none fs), λ h. ground (arith, h, all_fine-none fs))

verdict_of-complete :
    (fs : List FileAudit)
    → (verdict_of fs ≡ complete) ↔ ((nat_beq (length fs) 0 ≡ false) × (all_fine fs ≡ true))
unfolding verdict_of
verdict_of-complete fs = elim (Bool-cases (nat_beq (length fs) 0)) [
  | inl none_given ↦ ground (arith, none_given)
  | inr given ↦ elim (Bool-cases (any_by is_error fs)) [
    | inl broken ↦ ground (arith, given, broken, all_fine-none fs)
    | inr readable ↦ elim (Bool-cases (any_by is_incomplete fs)) [
      | inl lacking ↦ ground (arith, given, readable, lacking, all_fine-none fs)
      | inr whole ↦ ground (arith, given, readable, whole, all_fine-none fs)
    ]
  ]
]

module _ (ext : External) (local : LocalStore) (r archive : ℕ) (chain later : Chain) where
  abbrev fine_root : Bytes → Bool
  fine_root root = is_fine (file_after ext local r archive chain later root)

  -- Every root that was not seen before is fine.
  all_fine-audit_roots :
      (seen inventory : List Bytes)
      → (all_fine
            (map (recheck_file ext later) (audit_roots ext local r archive chain seen inventory))
          ≡ true)
        ↔ ((root : Bytes)
            → contains inventory root ≡ true
            → contains seen root ≡ false
            → fine_root root ≡ true)
  unfolding audit_roots
  all_fine-audit_roots seen [] = (λ h root member new. absurd (cc), λ h. refl)
  all_fine-audit_roots seen (first ∷ inventory) = elim (Bool-cases (contains seen first)) [
    | inl again ↦ (
      λ h root member new. elim (Bool-cases (first == root)) [
        | inl same ↦
            let here : contains seen first ≡ contains seen root =
              ap (contains seen) ((list_beq_iff first root).0 same) in
            absurd (ground (arith, here, again, new))
        | inr differs ↦
            (all_fine-audit_roots seen inventory).0 (ground (arith, h, again)) root
              (ground (arith, member, differs)) new
      ],
      λ h.
          let rest =
            (all_fine-audit_roots seen inventory).1
              (λ root member new. h root (ground (arith, member)) new) in
          ground (arith, again, rest),
    )
    | inr fresh ↦ (
      λ h root member new. elim (Bool-cases (first == root)) [
        | inl same ↦
            let good : fine_root first ≡ true = ground (arith, h, fresh) in
            subst (λ k. fine_root k ≡ true) ((list_beq_iff first root).0 same) good
        | inr differs ↦
            (all_fine-audit_roots (first ∷ seen) inventory).0 (ground (arith, h, fresh)) root
              (ground (arith, member, differs)) (ground (arith, new, differs))
      ],
      λ h.
          let here : fine_root first ≡ true = h first (ground (arith, ==_refl first)) fresh in
          let rest =
            (all_fine-audit_roots (first ∷ seen) inventory).1
              (λ root member new. h root (ground (arith, member)) (ground (arith, new))) in
          ground (arith, fresh, here, rest),
    )
  ]

  audit_given :
      (inventory : List Bytes)
      → nat_beq (length (audit ext local r archive chain later inventory)) 0
        ≡ nat_beq (length inventory) 0
  unfolding audit audit_roots
  audit_given [] = refl
  audit_given (root ∷ inventory) = ground arith

  -- The verdict of an audit is complete exactly when the inventory is not empty and, for every
  -- root in it, the chain has a row for the file, and the file is abandoned, or its epoch is the
  -- same at both reads and, for every chunk below the count that the snapshot of the epoch assigns
  -- to the archive, the archive builds an answer that the strict verifier accepts against the root
  -- and the chunk count.
  pub audit-complete :
      (inventory : List Bytes)
      → (verdict_of (audit ext local r archive chain later inventory) ≡ complete) ↔ (
          (0 < length inventory)
          × ((root : Bytes)
              → contains inventory root ≡ true
              → Answerable ext local r archive chain later root))
  unfolding audit
  audit-complete inventory =
      let files = audit ext local r archive chain later inventory in
      (
        λ h.
            let (given, fine) = (verdict_of-complete files).0 h in
            (
              ground (arith, given, audit_given inventory),
              λ root member.
                  (fine_iff ext local r archive chain later root).0
                    ((all_fine-audit_roots [] inventory).0 fine root member refl),
            ),
        λ (given, all). (verdict_of-complete files).1 (
          audit_given inventory ∙ ground (arith, given),
          (all_fine-audit_roots [] inventory).1 (λ root member new.
              (fine_iff ext local r archive chain later root).1 (all root member)),
        ),
      )
