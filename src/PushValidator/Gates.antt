-- ===== src/PushValidator/Gates.antt =====
-- What the caches hold was said by the chain, and each question is answered by what the chain said.
use storage_node_interface_p.Prelude.{
  ℕ, ◌-◌, ◌≡◌, refl, sym, subst, ◌∙◌, true, Option, none, some, List, ltb, ok, arith, Result-cases,
  Option-cases, Bool-cases, inl, inr,
}
use storage_node_interface_p.Prelude.Eq.{nat_eq, contains}
use storage_node_interface_p.Merkle.{Bytes}
use storage_node_interface_p.Rendezvous.{assigned_archives}
use storage_node_interface_p.PushValidator.Ask.{
  External, Chain, StorageFileInfoV2, ask_file_info, ask_epoch, ask_snapshot,
}
use storage_node_interface_p.PushValidator.Cached.{
  Lrus, Config, Caches, fetch_file_info, fetch_snapshot, young, assignment_epoch, judge,
  check_assigned,
}
use storage_node_interface_p.PushValidator.Said.{
  IsLrus, Says, Answers, Holds, Cached, get-Cached, get-hit, put-Cached, ok_eq, err-ne-ok, Recent,
  AssignedAt, Kept,
}

module _ (ext : External) (lrus : Lrus) (lawful : IsLrus lrus) (says : Says) (chain : Chain)
    (now : ℕ) (answers : Answers ext says chain now) where
  pub fetch_file_info-Kept :
      (root : Bytes) (c : Caches lrus)
      → Holds lrus says c
      → Kept lrus says (says.Info root) (fetch_file_info ext lrus chain root c)
  unfolding fetch_file_info
  fetch_file_info-Kept root c h =
      let moved = get-Cached lrus.infos lawful.infos says.Info root c.file_info h.info in
      elim (Option-cases (lrus.infos.get root c.file_info).1) [
        | inr (info, hit) ↦
            let said = get-hit lrus.infos lawful.infos says.Info root c.file_info info h.info hit in
            rw (fetch_file_info, hit)
              (
                record { info = moved; snapshot = h.snapshot; epoch = h.epoch },
                λ x e. subst (says.Info root) (ok_eq e) said,
              )
        | inl miss ↦ elim (Result-cases (ask_file_info ext chain root)) [
          | inl (info, asked) ↦
              let said = answers.info root info asked in
              let stored = put-Cached lrus.infos lawful.infos says.Info root info _ said moved in
              rw (fetch_file_info, miss, asked)
                (
                  record { info = stored; snapshot = h.snapshot; epoch = h.epoch },
                  λ x e. subst (says.Info root) (ok_eq e) said,
                )
          | inr (why, asked) ↦
              rw (fetch_file_info, miss, asked)
                (
                  record { info = moved; snapshot = h.snapshot; epoch = h.epoch },
                  λ x e. absurd (err-ne-ok e),
                )
        ]
      ]

  pub fetch_snapshot-Kept :
      (height : ℕ) (c : Caches lrus)
      → Holds lrus says c
      → Kept lrus says (says.Snapshot height) (fetch_snapshot ext lrus chain height c)
  unfolding fetch_snapshot
  fetch_snapshot-Kept height c h =
      let moved =
        get-Cached lrus.snapshots lawful.snapshots says.Snapshot height c.snapshot h.snapshot in
      elim (Option-cases (lrus.snapshots.get height c.snapshot).1) [
        | inr (s, hit) ↦
            let said =
              get-hit lrus.snapshots lawful.snapshots says.Snapshot height c.snapshot s h.snapshot
                hit in
            rw (fetch_snapshot, hit)
              (
                record { info = h.info; snapshot = moved; epoch = h.epoch },
                λ x e. subst (says.Snapshot height) (ok_eq e) said,
              )
        | inl miss ↦ elim (Result-cases (ask_snapshot ext chain height)) [
          | inl (s, asked) ↦
              let said = answers.snapshot height s asked in
              let stored =
                put-Cached lrus.snapshots lawful.snapshots says.Snapshot height s _ said moved in
              rw (fetch_snapshot, miss, asked)
                (
                  record { info = h.info; snapshot = stored; epoch = h.epoch },
                  λ x e. subst (says.Snapshot height) (ok_eq e) said,
                )
          | inr (why, asked) ↦
              rw (fetch_snapshot, miss, asked)
                (
                  record { info = h.info; snapshot = moved; epoch = h.epoch },
                  λ x e. absurd (err-ne-ok e),
                )
        ]
      ]

  young-Recent :
      (root : Bytes) (max_age epoch : ℕ) (hit : Option (ℕ × ℕ))
      → ((e t : ℕ) → hit ≡ some (e, t) → says.Epoch root e t)
      → young now max_age hit ≡ some epoch
      → Recent says now root max_age epoch
  unfolding young
  young-Recent root max_age epoch none said e = absurd (cc)
  young-Recent root max_age epoch (some (old, t)) said e =
      elim (Bool-cases (ltb (now - t) max_age)) [
        | inl fresh ↦ (
          t,
          subst (λ k. says.Epoch root k t) (ground (arith, e, fresh)) (said old t refl),
          ground (arith, fresh),
        )
        | inr stale ↦ absurd (ground (arith, e, stale))
      ]

  pub assignment_epoch-Kept :
      (root : Bytes) (info : StorageFileInfoV2) (max_age : ℕ) (c : Caches lrus)
      → says.Info root info
      → Holds lrus says c
      → Kept lrus says
          (λ answer. Recent says now root max_age answer.0)
          (assignment_epoch ext lrus chain now root info max_age c)
  unfolding assignment_epoch
  assignment_epoch-Kept root info max_age c row h =
      let P = λ (k : Bytes) (v : ℕ × ℕ). says.Epoch k v.0 v.1 in
      let held : Cached lrus.epochs lawful.epochs P c.epochs = λ k v e. h.epoch k v.0 v.1 e in
      let moved = get-Cached lrus.epochs lawful.epochs P root c.epochs held in
      elim (Option-cases (young now max_age (lrus.epochs.get root c.epochs).1)) [
        | inr (epoch, hit) ↦
            let seen =
              young-Recent root max_age epoch (lrus.epochs.get root c.epochs).1
                (λ e t at. h.epoch root e t (sym (lawful.epochs.get_peek root c.epochs) ∙ at))
                hit in
            rw (assignment_epoch, hit)
              (
                record { info = h.info; snapshot = h.snapshot; epoch = λ k e t. moved k (e, t) },
                λ x e. subst (λ a. Recent says now root max_age a.0) (ok_eq e) seen,
              )
        | inl miss ↦ elim (Result-cases (ask_epoch ext chain root info)) [
          | inl (epoch, asked) ↦
              let said = answers.epoch root info epoch row asked in
              let stored = put-Cached lrus.epochs lawful.epochs P root (epoch, now) _ said moved in
              rw (assignment_epoch, miss, asked)
                (
                  record { info = h.info; snapshot = h.snapshot; epoch = λ k e t. stored k (e, t) },
                  λ x e.
                      subst (λ a. Recent says now root max_age a.0) (ok_eq e)
                        (now, said, omega arith),
                )
          | inr (why, asked) ↦
              rw (assignment_epoch, miss, asked)
                (
                  record { info = h.info; snapshot = h.snapshot; epoch = λ k e t. moved k (e, t) },
                  λ x e. absurd (err-ne-ok e),
                )
        ]
      ]

  judge-ok :
      (cfg : Config) (root : Bytes) (epoch i : ℕ) (s : List ℕ)
      → judge ext cfg root epoch i s ≡ ok tt
      → (contains s cfg.my_addr ≡ true)
        × (contains
              (assigned_archives ext.wire root s i cfg.assignment_replication_factor)
              cfg.my_addr
            ≡ true)
  unfolding judge
  judge-ok cfg root epoch i s e = ground (arith, e)

  pub check_assigned-Kept :
      (cfg : Config) (root : Bytes) (epoch i : ℕ) (c : Caches lrus)
      → Holds lrus says c
      → Kept lrus says
          (λ _. AssignedAt ext says cfg root i epoch)
          (check_assigned ext lrus cfg chain root epoch i c)
  unfolding check_assigned
  check_assigned-Kept cfg root epoch i c h =
      let (held, said) = fetch_snapshot-Kept epoch c h in
      elim (Result-cases (fetch_snapshot ext lrus chain epoch c).1) [
        | inl (s, found) ↦
            rw (check_assigned, found)
              (
                held,
                λ x e.
                    let (here, mine) = judge-ok cfg root epoch i s e in
                    (s, said s found, here, mine),
              )
        | inr (why, found) ↦ rw (check_assigned, found) (held, λ x e. absurd (err-ne-ok e))
      ]
