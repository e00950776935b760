-- ===== src/PushValidator/Said.antt =====
-- What the chain says, what it is for the caches to hold only that, and how a lawful cache keeps to it.
use storage_node_interface_p.Prelude.{
  ℕ, ◌-◌, ◌≤◌, ◌≡◌, sym, subst, ◌∙◌, true, some, List, Result, ok, err, inl, inr,
}
use storage_node_interface_p.Prelude.Eq.{nat_eq, contains}
use storage_node_interface_p.Merkle.{Bytes}
use storage_node_interface_p.Rendezvous.{assigned_archives}
use storage_node_interface_p.PushValidator.Ask.{
  External, Chain, PushReject, StorageFileInfoV2, ask_file_info, ask_epoch, ask_snapshot,
}
use storage_node_interface_p.PushValidator.Cached.{Lru, IsLru, Lrus, Config, Caches}

pub record IsLrus (lrus : Lrus) : Type 0 where
  pub infos : IsLru lrus.infos
  pub snapshots : IsLru lrus.snapshots
  pub epochs : IsLru lrus.epochs

-- What is said of a file, of the snapshot at a height, and of a file's latest epoch at a time.
pub record Says : Type 1 where
  pub Info : Bytes → StorageFileInfoV2 → Type 0
  pub Snapshot : ℕ → List ℕ → Type 0
  pub Epoch : Bytes → ℕ → ℕ → Type 0

-- Everything that the chain answers at that time, and that passes the checks, is said; an epoch, when
-- it is checked against a row of the file that is said.
pub record Answers (ext : External) (says : Says) (chain : Chain) (now : ℕ) : Type 0 where
  pub info :
      (root : Bytes) (i : StorageFileInfoV2)
      → ask_file_info ext chain root ≡ ok i
      → says.Info root i
  pub snapshot :
      (height : ℕ) (s : List ℕ) → ask_snapshot ext chain height ≡ ok s → says.Snapshot height s
  pub epoch :
      (root : Bytes) (i : StorageFileInfoV2) (e : ℕ)
      → says.Info root i
      → ask_epoch ext chain root i ≡ ok e
      → says.Epoch root e now

-- Everything that is cached is said.
pub record Holds (lrus : Lrus) (says : Says) (c : Caches lrus) : Type 0 where
  pub info :
      (root : Bytes) (i : StorageFileInfoV2)
      → lrus.infos.peek root c.file_info ≡ some i
      → says.Info root i
  pub snapshot :
      (height : ℕ) (s : List ℕ)
      → lrus.snapshots.peek height c.snapshot ≡ some s
      → says.Snapshot height s
  pub epoch :
      (root : Bytes) (e t : ℕ) → lrus.epochs.peek root c.epochs ≡ some (e, t) → says.Epoch root e t

module _ {K V : Type 0} (lru : Lru K V) (lawful : IsLru lru) (P : K → V → Type 0) where
  abbrev pub Cached : lru.Cache → Type 0
  Cached c = (k : K) (v : V) → lru.peek k c ≡ some v → P k v

  pub get-Cached : (k : K) (c : lru.Cache) → Cached c → Cached (lru.get k c).0
  get-Cached k c h j v e = h j v (sym (lawful.peek_get j k c) ∙ e)

  pub get-hit : (k : K) (c : lru.Cache) (v : V) → Cached c → (lru.get k c).1 ≡ some v → P k v
  get-hit k c v h e = h k v (sym (lawful.get_peek k c) ∙ e)

  pub put-Cached : (k : K) (v : V) (c : lru.Cache) → P k v → Cached c → Cached (lru.put k v c)
  put-Cached k v c p h j w e = elim (lawful.peek_put j k v w c e) [
    | inl (same, own) ↦ subst (λ i. P i w) same (subst (P k) own p)
    | inr before ↦ h j w before
  ]

pub ok_eq : {X : Type 0} {x y : X} → ◌≡◌ {A = Result PushReject X} (ok x) (ok y) → x ≡ y
ok_eq e = cc

pub err-ne-ok :
    {X : Type 0} {r : PushReject} {x : X} → ◌≡◌ {A = Result PushReject X} (err r) (ok x) → ⊥
err-ne-ok e = cc

-- The epoch was said of the file within the age.
abbrev pub Recent : Says → ℕ → Bytes → ℕ → ℕ → Type 0
Recent says now root max_age epoch = (t : ℕ) × says.Epoch root epoch t × (now - t ≤ max_age)

-- The snapshot said for the epoch has this archive, and assigns the chunk to it.
abbrev pub AssignedAt : External → Says → Config → Bytes → ℕ → ℕ → Type 0
AssignedAt ext says cfg root i epoch =
    (s : List ℕ) × says.Snapshot epoch s
    × (contains s cfg.my_addr ≡ true)
    × (contains (assigned_archives ext.wire root s i cfg.assignment_replication_factor) cfg.my_addr
        ≡ true)

-- The caches still hold only what is said, and a value that is returned has the property.
abbrev pub Kept :
    (lrus : Lrus) → Says → {X : Type 0} → (X → Type 0) → Caches lrus × Result PushReject X → Type 0
Kept lrus says {X} P (c, r) = Holds lrus says c × ((x : X) → r ≡ ok x → P x)
