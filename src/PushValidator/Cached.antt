-- ===== src/PushValidator/Cached.antt =====
-- crates/sum-node/src/push_validator.rs: the three caches in front of the chain. `LruCache` is a
-- parameter: `get` may move the entry, `put` may evict others.
use storage_node_interface_p.Prelude.{
  ℕ, ◌-◌, ◌≡◌, ◌⊎◌, Bool, true, false, not, Option, none, some, List, ltb, if◌then◌else◌, Result,
  ok, err,
}
use storage_node_interface_p.Prelude.Eq.{nat_eq, contains}
use storage_node_interface_p.Merkle.{Bytes}
use storage_node_interface_p.Rendezvous.{assigned_archives}
use storage_node_interface_p.PushValidator.Ask.{
  External, Chain, PushReject, not_in_snapshot, not_assigned, StorageFileInfoV2, ask_file_info,
  ask_epoch, ask_snapshot,
}

pub record Lru (K V : Type 0) : Type 1 where
  pub Cache : Type 0
  pub new : Cache
  pub get : K → Cache → Cache × Option V
  pub put : K → V → Cache → Cache
  pub peek : K → Cache → Option V

-- What the code relies on: a cache answers with what was put last under the key, or nothing.
pub record IsLru {K V : Type 0} (lru : Lru K V) : Type 0 where
  pub peek_new : (k : K) → lru.peek k lru.new ≡ none
  pub get_peek : (k : K) (c : lru.Cache) → (lru.get k c).1 ≡ lru.peek k c
  pub peek_get : (j k : K) (c : lru.Cache) → lru.peek j (lru.get k c).0 ≡ lru.peek j c
  pub peek_put :
      (j k : K) (v w : V) (c : lru.Cache)
      → lru.peek j (lru.put k v c) ≡ some w
      → ((k ≡ j) × (v ≡ w)) ⊎ (lru.peek j c ≡ some w)

pub record Lrus : Type 1 where
  pub infos : Lru Bytes StorageFileInfoV2
  pub snapshots : Lru ℕ (List ℕ)
  -- the epoch, and when it was read
  pub epochs : Lru Bytes (ℕ × ℕ)

pub record Config : Type 0 where
  pub my_addr : ℕ
  pub assignment_replication_factor : ℕ
  pub epoch_ttl : ℕ
  pub epoch_recheck_min : ℕ

abbrev pub default_epoch_ttl : ℕ
default_epoch_ttl = 30_000

abbrev pub default_epoch_recheck_min : ℕ
default_epoch_recheck_min = 2_000

-- What a validator holds between two pushes.
pub record Caches (lrus : Lrus) : Type 0 where
  pub file_info : lrus.infos.Cache
  pub snapshot : lrus.snapshots.Cache
  pub epochs : lrus.epochs.Cache

-- The entry is young enough.
unfoldable pub young : ℕ → ℕ → Option (ℕ × ℕ) → Option ℕ
young now max_age none = none
young now max_age (some (epoch, read_at)) = if ltb (now - read_at) max_age then some epoch else none

module _ (ext : External) (lrus : Lrus) (chain : Chain) where
  unfoldable pub fetch_file_info :
      Bytes → Caches lrus → Caches lrus × Result PushReject StorageFileInfoV2
  fetch_file_info merkle_root c =
      let (moved, hit) = lrus.infos.get merkle_root c.file_info in
      let d : Caches lrus = record {
        file_info = moved;
        snapshot = c.snapshot;
        epochs = c.epochs;
      } in
      elim hit [
        | some info ↦ (d, ok info)
        | none ↦ elim (ask_file_info ext chain merkle_root) [
          | err e ↦ (d, err e)
          | ok info ↦ (
            record {
              file_info = lrus.infos.put merkle_root info moved;
              snapshot = c.snapshot;
              epochs = c.epochs;
            },
            ok info,
          )
        ]
      ]

  unfoldable pub fetch_snapshot : ℕ → Caches lrus → Caches lrus × Result PushReject (List ℕ)
  fetch_snapshot height c =
      let (moved, hit) = lrus.snapshots.get height c.snapshot in
      let d : Caches lrus = record {
        file_info = c.file_info;
        snapshot = moved;
        epochs = c.epochs;
      } in
      elim hit [
        | some snap ↦ (d, ok snap)
        | none ↦ elim (ask_snapshot ext chain height) [
          | err e ↦ (d, err e)
          | ok decoded ↦ (
            record {
              file_info = c.file_info;
              snapshot = lrus.snapshots.put height decoded moved;
              epochs = c.epochs;
            },
            ok decoded,
          )
        ]
      ]

  -- The epoch, and whether this call read it from the chain.
  unfoldable pub assignment_epoch :
      ℕ → Bytes → StorageFileInfoV2 → ℕ → Caches lrus → Caches lrus × Result PushReject (ℕ × Bool)
  assignment_epoch now merkle_root info max_age c =
      let (moved, hit) = lrus.epochs.get merkle_root c.epochs in
      let d : Caches lrus = record {
        file_info = c.file_info;
        snapshot = c.snapshot;
        epochs = moved;
      } in
      elim (young now max_age hit) [
        | some epoch ↦ (d, ok (epoch, false))
        | none ↦ elim (ask_epoch ext chain merkle_root info) [
          | err e ↦ (d, err e)
          | ok epoch ↦ (
            record {
              file_info = c.file_info;
              snapshot = c.snapshot;
              epochs = lrus.epochs.put merkle_root (epoch, now) moved;
            },
            ok (epoch, true),
          )
        ]
      ]

-- On a sorted list `binary_search` finds the members.
unfoldable pub judge : External → Config → Bytes → ℕ → ℕ → List ℕ → Result PushReject (Unit {0})
judge ext cfg merkle_root epoch chunk_index snapshot =
    if not (contains snapshot cfg.my_addr)
    then err (not_in_snapshot epoch)
    else if not (
        contains
          (assigned_archives ext.wire merkle_root snapshot chunk_index
            cfg.assignment_replication_factor)
          cfg.my_addr)
    then err (not_assigned chunk_index)
    else ok tt

unfoldable pub check_assigned :
    (ext : External) (lrus : Lrus)
    → Config
    → Chain
    → Bytes
    → ℕ
    → ℕ
    → Caches lrus
    → Caches lrus × Result PushReject (Unit {0})
check_assigned ext lrus cfg chain merkle_root epoch chunk_index c =
    let (d, found) = fetch_snapshot ext lrus chain epoch c in
    elim found [
      | err e ↦ (d, err e)
      | ok snapshot ↦ (d, judge ext cfg merkle_root epoch chunk_index snapshot)
    ]
