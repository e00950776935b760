-- ===== src/PushValidator/Sound.antt =====
-- What an accepted push has passed, after any pushes before it.
use storage_node_interface_p.Prelude.{
  ℕ, ◌<◌, ◌≡◌, ◌⊎◌, refl, sym, ap, Bool, true, false, not, ◌&&◌, ◌||◌, List, leb, nat_beq, Result,
  ok, err, arith, max, Result-cases, Bool-cases, inl, inr,
}
use storage_node_interface_p.Prelude.Eq.{◌==◌, nat_eq}
use storage_node_interface_p.Merkle.{Bytes}
use storage_node_interface_p.Verify.{verify_merkle_proof_bytes_for_tree}
use storage_node_interface_p.PushValidator.{
  ValidatedPush, is_refusal, recheck, assigned_here, validate_push,
}
use storage_node_interface_p.PushValidator.Ask.{
  External, Chain, PushReject, StorageFileInfoV2, is_pending, is_active, is_abandoned,
}
use storage_node_interface_p.PushValidator.Cached.{
  Lrus, Config, Caches, fetch_file_info, assignment_epoch, check_assigned,
}
use storage_node_interface_p.PushValidator.Said.{
  IsLrus, Says, Answers, Holds, Kept, Recent, AssignedAt, ok_eq, err-ne-ok,
}
use storage_node_interface_p.PushValidator.Gates.{
  fetch_file_info-Kept, assignment_epoch-Kept, check_assigned-Kept,
}

lifecycle_live :
    (lifecycle : ℕ)
    → not (is_pending lifecycle || is_active lifecycle) ≡ false
    → (lifecycle ≡ 0) ⊎ (lifecycle ≡ 1)
unfolding is_pending is_active
lifecycle_live lifecycle h = elim (Bool-cases (nat_beq lifecycle 0)) [
  | inl zeroth ↦ inl (ground (arith, zeroth))
  | inr other ↦ inr (ground (arith, h, other))
]

-- An epoch of the file that was said within the longer of the two ages assigns the chunk here.
abbrev pub Assigned : External → Says → Config → ℕ → Bytes → ℕ → Type 0
Assigned ext says cfg now root i =
    (epoch : ℕ) × Recent says now root (max cfg.epoch_ttl cfg.epoch_recheck_min) epoch
    × AssignedAt ext says cfg root i epoch

-- The three gates: the file is registered and not abandoned, the chunk is assigned to this archive,
-- and its proof verifies against the registered chunk count.
pub record Passed (ext : External) (says : Says) (cfg : Config) (now : ℕ) (root : Bytes) (i : ℕ)
    (payload : Bytes) (path : List Bytes) (v : ValidatedPush) : Type 0 where
  pub info : StorageFileInfoV2
  pub registered : says.Info root info
  pub live : (info.lifecycle ≡ 0) ⊎ (info.lifecycle ≡ 1)
  pub in_range : i < info.chunk_count
  pub assigned : Assigned ext says cfg now root i
  pub proved :
      verify_merkle_proof_bytes_for_tree ext.blake3
        (ext.blake3 payload)
        i
        path
        root
        info.chunk_count
      ≡ true
  pub leaf : v.leaf_hash ≡ ext.blake3 payload
  pub visible : v.visibility ≡ info.visibility

module _ (ext : External) (lrus : Lrus) (lawful : IsLrus lrus) (says : Says) (cfg : Config)
    (chain : Chain) (now : ℕ) (answers : Answers ext says chain now) where
  recheck-Kept :
      (root : Bytes) (info : StorageFileInfoV2) (i epoch : ℕ) (read_now : Bool)
      (first : Result PushReject (Unit {0})) (c : Caches lrus)
      → says.Info root info
      → Holds lrus says c
      → Recent says now root cfg.epoch_ttl epoch
      → (first ≡ ok tt → AssignedAt ext says cfg root i epoch)
      → Kept lrus says
          (λ _. Assigned ext says cfg now root i)
          (recheck ext lrus cfg chain now root info i epoch read_now first c)
  unfolding recheck
  recheck-Kept root info i epoch read_now (ok u) c row h recent passed =
      let (t, said, age) = recent in (h, λ x e. (epoch, (t, said, omega arith), passed refl))
  recheck-Kept root info i epoch read_now (err refused) c row h recent passed =
      elim (Bool-cases (is_refusal refused && not read_now)) [
        | inr final ↦ rw (recheck, final) (h, λ x e. absurd (err-ne-ok e))
        | inl again ↦
            let asked = assignment_epoch ext lrus chain now root info cfg.epoch_recheck_min c in
            let (held, said) =
              assignment_epoch-Kept ext lrus lawful says chain now answers root info
                cfg.epoch_recheck_min c row h in
            elim (Result-cases asked.1) [
              | inr (why, failed) ↦ rw (recheck, again, failed) (held, λ x e. absurd (err-ne-ok e))
              | inl ((fresh, read), found) ↦ elim (Bool-cases (fresh == epoch)) [
                | inl same ↦ rw (recheck, again, found, same) (held, λ x e. absurd (err-ne-ok e))
                | inr newer ↦
                    let (t, told, age) = said (fresh, read) found in
                    let (kept, here) =
                      check_assigned-Kept ext lrus lawful says chain now answers cfg root fresh i
                        asked.0 held in
                    rw (recheck, again, found, newer)
                      (kept, λ x e. (fresh, (t, told, omega arith), here x e))
              ]
            ]
      ]

  assigned_here-Kept :
      (root : Bytes) (info : StorageFileInfoV2) (i : ℕ) (c : Caches lrus)
      → says.Info root info
      → Holds lrus says c
      → Kept lrus says
          (λ _. Assigned ext says cfg now root i)
          (assigned_here ext lrus cfg chain now root info i c)
  unfolding assigned_here
  assigned_here-Kept root info i c row h =
      let asked = assignment_epoch ext lrus chain now root info cfg.epoch_ttl c in
      let (held, said) =
        assignment_epoch-Kept ext lrus lawful says chain now answers root info cfg.epoch_ttl c row
          h in
      elim (Result-cases asked.1) [
        | inr (why, failed) ↦ rw (assigned_here, failed) (held, λ x e. absurd (err-ne-ok e))
        | inl ((epoch, read), found) ↦
            let (kept, here) =
              check_assigned-Kept ext lrus lawful says chain now answers cfg root epoch i asked.0
                held in
            let checked = check_assigned ext lrus cfg chain root epoch i asked.0 in
            rw (assigned_here, found)
              (recheck-Kept root info i epoch read checked.1 checked.0 row kept
                (said (epoch, read) found) (λ e. here tt e))
      ]

  -- The gates behind the file's row.
  gates_hold :
      (root : Bytes) (i : ℕ) (payload : Bytes) (path : List Bytes) (c : Caches lrus)
      (info : StorageFileInfoV2)
      → Holds lrus says (fetch_file_info ext lrus chain root c).0
      → says.Info root info
      → (fetch_file_info ext lrus chain root c).1 ≡ ok info
      → Kept lrus says
          (Passed ext says cfg now root i payload path)
          (validate_push ext lrus cfg chain now root i payload path c)
  unfolding validate_push
  gates_hold root i payload path c info held said found =
      let d = (fetch_file_info ext lrus chain root c).0 in
      let (kept, here) = assigned_here-Kept root info i d said held in
      let good =
        verify_merkle_proof_bytes_for_tree ext.blake3 (ext.blake3 payload) i path root
          info.chunk_count in
      elim (Bool-cases (is_abandoned info.lifecycle)) [
        | inl gone ↦ rw (validate_push, found, gone) (held, λ x e. absurd (err-ne-ok e))
        | inr still ↦
            elim (Bool-cases (not (is_pending info.lifecycle || is_active info.lifecycle))) [
              | inl odd ↦ rw (validate_push, found, still, odd) (held, λ x e. absurd (err-ne-ok e))
              | inr known ↦ elim (Bool-cases (leb info.chunk_count i)) [
                | inl out ↦
                    rw (validate_push, found, still, known, out) (held, λ x e. absurd (err-ne-ok e))
                | inr inside ↦
                    elim (Result-cases (assigned_here ext lrus cfg chain now root info i d).1) [
                      | inr (why, no_place) ↦
                          rw (validate_push, found, still, known, inside, no_place)
                            (kept, λ x e. absurd (err-ne-ok e))
                      | inl (u, place) ↦ elim (Bool-cases good) [
                        | inr bad ↦
                            rw (validate_push, found, still, known, inside, place, bad)
                              (kept, λ x e. absurd (err-ne-ok e))
                        | inl proof ↦
                            rw (validate_push, found, still, known, inside, place, proof)
                              (
                                kept,
                                λ x e. record {
                                  info = info;
                                  registered = said;
                                  live = lifecycle_live info.lifecycle known;
                                  in_range = ground (arith, inside);
                                  assigned = here u place;
                                  proved = proof;
                                  leaf = ap (λ v. v.leaf_hash) (sym (ok_eq e));
                                  visible = ap (λ v. v.visibility) (sym (ok_eq e));
                                },
                              )
                      ]
                    ]
              ]
            ]
      ]

  pub validate_push-Kept :
      (root : Bytes) (i : ℕ) (payload : Bytes) (path : List Bytes) (c : Caches lrus)
      → Holds lrus says c
      → Kept lrus says
          (Passed ext says cfg now root i payload path)
          (validate_push ext lrus cfg chain now root i payload path c)
  unfolding validate_push
  validate_push-Kept root i payload path c h =
      let (held, said) = fetch_file_info-Kept ext lrus lawful says chain now answers root c h in
      let asked = fetch_file_info ext lrus chain root c in
      elim (Result-cases asked.1) [
        | inr (why, failed) ↦ rw (validate_push, failed) (held, λ x e. absurd (err-ne-ok e))
        | inl (info, found) ↦ gates_hold root i payload path c info held (said info found) found
      ]
