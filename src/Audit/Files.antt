-- ===== src/Audit/Files.antt =====
-- When the audit of one file finds nothing wrong.
use storage_node_interface_p.Prelude.{
  ℕ, zero, suc, ◌+◌, ◌≤◌, ◌<◌, ◌≡◌, ◌↔◌, ◌⊎◌, refl, sym, ap, ◌∙◌, Bool, true, false, ◌&&◌, not,
  some, List, [], ◌∷◌, map, nat_beq, nat_beq_iff, any_by, filter_by, range_from, Result, ok,
  Result-cases, Option-cases, Bool-cases, inl, inr, arith,
}
use storage_node_interface_p.Prelude.Eq.{nat_eq, contains}
use storage_node_interface_p.Merkle.{Bytes}
use storage_node_interface_p.Verify.{verify_merkle_proof_bytes_for_tree}
use storage_node_interface_p.Rendezvous.{assigned_archives}
use storage_node_interface_p.PushValidator.Ask.{
  External, Chain, StorageFileInfoV2, is_abandoned, root_text,
}
use storage_node_interface_p.Audit.{
  LocalStore, PorAnswer, build_answer, FileAudit, is_error, is_not_usable, is_incomplete,
  read_epoch, read_snapshot, audit_chunk, audit_chunks, audit_file, recheck_of, recheck_file,
}

any_by-map-filter_by {ℓ κ} :
    {A : Type ℓ} {B : Type κ} (p : B → Bool) (f : A → B) (q : A → Bool) (xs : List A)
    → any_by p (map f (filter_by q xs)) ≡ any_by (λ x. q x && p (f x)) xs
any_by-map-filter_by p f q [] = refl
any_by-map-filter_by p f q (x ∷ xs) = ground (arith, any_by-map-filter_by p f q xs)

-- Nothing in a range has a property exactly when no number within it has.
any_by-range_from :
    (p : ℕ → Bool) (i n : ℕ)
    → (any_by p (range_from i n) ≡ false) ↔ ((c : ℕ) → i ≤ c → c < i + n → p c ≡ false)
any_by-range_from p i zero = (λ h c a b. absurd (omega arith), λ h. refl)
any_by-range_from p i (suc n) = (
  λ h c a b. elim (Bool-cases (nat_beq i c)) [
    | inl same ↦
        let here : i ≡ c = (nat_beq_iff i c).0 same in
        let first : p i ≡ false = ground (arith, h) in ap p (sym here) ∙ first
    | inr differs ↦
        (any_by-range_from p (i + 1) n).0 (ground (arith, h)) c (ground (arith, differs))
          (omega arith)
  ],
  λ h.
      let first : p i ≡ false = h i (omega arith) (omega arith) in
      let rest : any_by p (range_from (i + 1) n) ≡ false =
        (any_by-range_from p (i + 1) n).1 (λ c a b. h c (omega arith) (omega arith)) in
      ground (arith, first, rest),
)

ok_eq {ℓ κ} : {E : Type ℓ} {A : Type κ} {a b : A} → ◌≡◌ {A = Result E A} (ok a) (ok b) → a ≡ b
ok_eq e = cc

-- Neither an error nor an incomplete file.
abbrev pub is_fine : FileAudit → Bool
is_fine f = not (is_error f) && not (is_incomplete f)

module _ (ext : External) (local : LocalStore) (r archive : ℕ) (chain later : Chain)
    (root : Bytes) where
  -- The archive has an answer for the chunk that verifies against the root and the count.
  abbrev pub Answers : ℕ → ℕ → Type 0
  Answers chunk_count c =
      (answer : PorAnswer) × (build_answer ext local root c ≡ ok answer)
      × (verify_merkle_proof_bytes_for_tree ext.blake3 answer.chunk_hash c answer.merkle_path root
            chunk_count
          ≡ true)

  -- The chain has a row for the file that is abandoned; or one that is not, the same epoch at both
  -- reads, and an answer for every chunk that the epoch's snapshot assigns to the archive.
  abbrev pub Answerable : Type 0
  Answerable =
      (info : StorageFileInfoV2) × (chain.storage_get_file_info_v2 (root_text ext root)
        ≡ ok (some info))
      × ((is_abandoned info.lifecycle ≡ true)
          ⊎ ((epoch : ℕ) × (snapshot : List ℕ) × (is_abandoned info.lifecycle ≡ false)
              × (read_epoch ext chain root info.assignment_height ≡ ok epoch)
              × (read_epoch ext later root info.assignment_height ≡ ok epoch)
              × (read_snapshot ext chain epoch ≡ ok snapshot)
              × ((c : ℕ)
                  → c < info.chunk_count
                  → contains (assigned_archives ext.wire root snapshot c r) archive ≡ true
                  → Answers info.chunk_count c)))

  audit_chunk-Answers :
      (chunk_count c : ℕ)
      → (is_not_usable (audit_chunk ext local r archive root chunk_count c) ≡ false)
        ↔ Answers chunk_count c
  unfolding is_not_usable audit_chunk
  audit_chunk-Answers chunk_count c = elim (Result-cases (build_answer ext local root c)) [
    | inr (e, b) ↦
        (λ h. absurd (ground (arith, h, b)), λ (answer, a, v). absurd (ground (arith, a, b)))
    | inl (answer, b) ↦
        elim (Bool-cases (
          verify_merkle_proof_bytes_for_tree ext.blake3 answer.chunk_hash c answer.merkle_path root
            chunk_count)) [
              | inl good ↦ (λ h. (answer, b, good), λ h. ground (arith, b, good))
              | inr bad ↦ (
                λ h. absurd (ground (arith, h, b, bad)),
                λ (other, a, v).
                    let same : other ≡ answer = ok_eq (sym a ∙ b) in
                    absurd (
                      cc (
                        bad,
                        ap
                              (λ (k : PorAnswer).
                                verify_merkle_proof_bytes_for_tree ext.blake3 k.chunk_hash c
                                  k.merkle_path root chunk_count)
                              (sym same)
                            ∙ v,
                      )),
              )
            ]
  ]

  audit_chunks-Answers :
      (chunk_count : ℕ) (snapshot : List ℕ)
      → (any_by is_not_usable (audit_chunks ext local r archive root chunk_count snapshot) ≡ false)
        ↔ ((c : ℕ)
            → c < chunk_count
            → contains (assigned_archives ext.wire root snapshot c r) archive ≡ true
            → Answers chunk_count c)
  unfolding audit_chunks
  audit_chunks-Answers chunk_count snapshot =
      let assigned : ℕ → Bool =
        λ c. contains (assigned_archives ext.wire root snapshot c r) archive in
      let bad : ℕ → Bool =
        λ c. assigned c && is_not_usable (audit_chunk ext local r archive root chunk_count c) in
      let flat =
        any_by-map-filter_by is_not_usable (audit_chunk ext local r archive root chunk_count)
          assigned (range_from 0 chunk_count) in
      (
        λ h c lt mine.
            let good : bad c ≡ false =
              (any_by-range_from bad 0 chunk_count).0 (sym flat ∙ h) c (omega arith)
                (omega arith) in
            (audit_chunk-Answers chunk_count c).0 (ground (arith, good, mine)),
        λ h.
            flat
            ∙ (any_by-range_from bad 0 chunk_count).1 (λ c low lt. elim (Bool-cases (assigned c)) [
              | inl mine ↦
                  let good = (audit_chunk-Answers chunk_count c).1 (h c (omega arith) mine) in
                  ground (arith, mine, good)
              | inr others ↦ ground (arith, others)
            ]),
      )

  -- The audit of the file, with its recheck.
  abbrev pub file_after : FileAudit
  file_after = recheck_file ext later (audit_file ext local r archive root chain)

  fine-Answerable : is_fine file_after ≡ true → Answerable
  unfolding audit_file recheck_file recheck_of is_error is_incomplete
  fine-Answerable h = elim (Result-cases (chain.storage_get_file_info_v2 (root_text ext root))) [
    | inr (e, i) ↦ absurd (ground (arith, h, i))
    | inl (found, i) ↦ elim (Option-cases found) [
      | inl nothing ↦ absurd (ground (arith, h, i, nothing))
      | inr (info, row) ↦ elim (Bool-cases (is_abandoned info.lifecycle)) [
        | inl gone ↦ (info, i ∙ ap ok row, inl gone)
        | inr live ↦ elim (Result-cases (read_epoch ext chain root info.assignment_height)) [
          | inr (e, p) ↦ absurd (ground (arith, h, i, row, live, p))
          | inl (epoch, p) ↦ elim (Result-cases (read_snapshot ext chain epoch)) [
            | inr (e, n) ↦ absurd (ground (arith, h, i, row, live, p, n))
            | inl (snapshot, n) ↦
                elim (Result-cases (read_epoch ext later root info.assignment_height)) [
                  | inr (e, q) ↦ absurd (ground (arith, h, i, row, live, p, n, q))
                  | inl (now, q) ↦ elim (Bool-cases (nat_beq now epoch)) [
                    | inr differs ↦ absurd (ground (arith, h, i, row, live, p, n, q, differs))
                    | inl same ↦
                        let steady : now ≡ epoch = (nat_beq_iff now epoch).0 same in
                        (
                          info,
                          i ∙ ap ok row,
                          inr (
                            epoch,
                            snapshot,
                            live,
                            p,
                            q ∙ ap ok steady,
                            n,
                            (audit_chunks-Answers info.chunk_count snapshot).0
                                (ground (arith, h, i, row, live, p, n, q, same)),
                          ),
                        )
                  ]
                ]
          ]
        ]
      ]
    ]
  ]

  Answerable-fine : Answerable → is_fine file_after ≡ true
  unfolding audit_file recheck_file recheck_of is_error is_incomplete
  Answerable-fine (info, i, inl gone) = ground (arith, i, gone)
  Answerable-fine (info, i, inr (epoch, snapshot, live, p, q, n, all)) =
      let chunks = (audit_chunks-Answers info.chunk_count snapshot).1 all in
      let same : nat_beq epoch epoch ≡ true = (nat_beq_iff epoch epoch).1 refl in
      ground (arith, i, live, p, n, q, same, chunks)

  pub fine_iff : (is_fine file_after ≡ true) ↔ Answerable
  fine_iff = (fine-Answerable, Answerable-fine)
