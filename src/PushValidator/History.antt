-- ===== src/PushValidator/History.antt =====
-- A validator that starts with empty caches and is given pushes one after the other.
use storage_node_interface_p.Prelude.{
  ℕ, ◌≡◌, ◌⊎◌, refl, sym, ◌∙◌, Option, none, some, List, [], ◌∷◌, Result, ok, All, inl, inr,
  All-imp,
}
use storage_node_interface_p.Merkle.{Bytes}
use storage_node_interface_p.PushValidator.{ValidatedPush, validate_push}
use storage_node_interface_p.PushValidator.Ask.{External, Chain, PushReject, StorageFileInfoV2}
use storage_node_interface_p.PushValidator.Cached.{Lrus, Config, Caches}
use storage_node_interface_p.PushValidator.Rows.{
  HasRow, HasEpoch, HasSnapshot, ask_file_info-HasRow, ask_epoch-HasEpoch, ask_snapshot-HasSnapshot,
}
use storage_node_interface_p.PushValidator.Said.{IsLrus, Says, Answers, Holds}
use storage_node_interface_p.PushValidator.Sound.{Passed, validate_push-Kept}

-- A push, with what the chain answers while it is validated, and the time.
pub record Push : Type 0 where
  pub chain : Chain
  pub now : ℕ
  pub merkle_root : Bytes
  pub chunk_index : ℕ
  pub payload : Bytes
  pub merkle_path : List Bytes

module _ (ext : External) (lrus : Lrus) (cfg : Config) where
  unfoldable pub serve : Caches lrus → Push → Caches lrus × Result PushReject ValidatedPush
  serve c push =
      validate_push ext lrus cfg push.chain push.now push.merkle_root push.chunk_index push.payload
        push.merkle_path c

  -- The caches after the pushes, the last push first.
  unfoldable pub caches_after : List Push → Caches lrus
  caches_after [] = record {
    file_info = lrus.infos.new;
    snapshot = lrus.snapshots.new;
    epochs = lrus.epochs.new;
  }
  caches_after (push ∷ earlier) = (serve (caches_after earlier) push).0

none-ne-some : {A : Type 0} {a : A} → ◌≡◌ {A = Option A} none (some a) → ⊥
none-ne-some e = cc

-- Some push has the property.
abbrev pub Some : (Push → Type 0) → List Push → Type 0
Some P [] = ⊥
Some P (x ∷ xs) = P x ⊎ Some P xs

Some-self : (xs : List Push) → All (λ x. (P : Push → Type 0) → P x → Some P xs) xs
Some-self [] = tt
Some-self (x ∷ xs) = (λ P p. inl p, All-imp (λ y f P p. inr (f P p)) xs (Some-self xs))

-- The chain answered with this row of the file during some of the pushes.
abbrev pub HeardInfo : External → List Push → Bytes → StorageFileInfoV2 → Type 0
HeardInfo ext pushes root info = Some (λ (p : Push). HasRow ext p.chain root info) pushes

-- What the chain answered during some of the pushes: a file's row that names its root, the archives
-- of a snapshot, and a file's latest epoch at a time, against a row of the file that was answered
-- too.
abbrev pub Heard : External → List Push → Says
Heard ext pushes = record {
  Info = HeardInfo ext pushes;
  Snapshot = λ height s. Some (λ (p : Push). HasSnapshot ext p.chain height s) pushes;
  Epoch = λ root epoch t.
      Some
        (λ (p : Push).
          (p.now ≡ t)
          × ((info : StorageFileInfoV2) × HeardInfo ext pushes root info
              × HasEpoch ext p.chain root info epoch))
        pushes;
}

Heard-Answers :
    (ext : External) (pushes : List Push)
    → All (λ p. Answers ext (Heard ext pushes) p.chain p.now) pushes
Heard-Answers ext pushes =
    All-imp
      (λ p known. record {
        info = λ root info e.
            known (λ q. HasRow ext q.chain root info)
              (ask_file_info-HasRow ext p.chain root info e);
        snapshot = λ height s e.
            known (λ q. HasSnapshot ext q.chain height s)
              (ask_snapshot-HasSnapshot ext p.chain height s e);
        epoch = λ root info epoch row e.
            known
              (λ q.
                (q.now ≡ p.now)
                × ((i : StorageFileInfoV2) × HeardInfo ext pushes root i
                    × HasEpoch ext q.chain root i epoch))
              (refl, (info, row, ask_epoch-HasEpoch ext p.chain root info epoch e));
      })
      pushes (Some-self pushes)

module _ (ext : External) (lrus : Lrus) (lawful : IsLrus lrus) (says : Says) (cfg : Config) where
  caches_after-Holds :
      (pushes : List Push)
      → All (λ p. Answers ext says p.chain p.now) pushes
      → Holds lrus says (caches_after ext lrus cfg pushes)
  unfolding caches_after serve
  caches_after-Holds [] a = record {
    info = λ root i e. absurd (none-ne-some (sym (lawful.infos.peek_new root) ∙ e));
    snapshot = λ height s e. absurd (none-ne-some (sym (lawful.snapshots.peek_new height) ∙ e));
    epoch = λ root e t h. absurd (none-ne-some (sym (lawful.epochs.peek_new root) ∙ h));
  }
  caches_after-Holds (p ∷ earlier) a =
      (validate_push-Kept ext lrus lawful says cfg p.chain p.now a.0 p.merkle_root p.chunk_index
        p.payload p.merkle_path (caches_after ext lrus cfg earlier)
        (caches_after-Holds earlier a.1)).0

-- Whatever pushes a validator was given before, a push that it accepts passed its gates on what
-- the chain answered during some of these pushes: a row that names the file's root, is pending or
-- active and has the chunk; a list of nodes for a height, of whose active archives this is one,
-- and among which the chunk is assigned to it; and a proof against the row's chunk count. The
-- height is an epoch of the file that was read no longer ago than the longer of the two epoch
-- ages: the one that the chain listed as the latest, no lower than the assignment height of an
-- answered row of the file, or that assignment height when the chain listed none. The result
-- carries the hash of the payload and the row's visibility.
pub serve-Passed :
    (ext : External) (lrus : Lrus) (lawful : IsLrus lrus) (cfg : Config) (earlier : List Push)
    (push : Push) (v : ValidatedPush)
    → (serve ext lrus cfg (caches_after ext lrus cfg earlier) push).1 ≡ ok v
    → Passed ext
        (Heard ext (push ∷ earlier))
        cfg
        push.now
        push.merkle_root
        push.chunk_index
        push.payload
        push.merkle_path
        v
unfolding serve
serve-Passed ext lrus lawful cfg earlier push v e =
    let says = Heard ext (push ∷ earlier) in
    let a = Heard-Answers ext (push ∷ earlier) in
    let held = caches_after-Holds ext lrus lawful says cfg earlier a.1 in
    (validate_push-Kept ext lrus lawful says cfg push.chain push.now a.0 push.merkle_root
        push.chunk_index push.payload push.merkle_path (caches_after ext lrus cfg earlier) held).1
      v e
