-- ===== src/Gc.antt =====
-- crates/sum-store/src/gc.rs: the collector of unassigned chunks. Times are in milliseconds; what
-- `Instant::now()` returns is an argument. The directory of the chunk store is a map from CID to
-- contents; whether it can be listed, and which deletions the file system refuses, are given.
pub mod Sweep
pub mod Round
pub mod Grace
mod Examples
use storage_node_interface_p.Prelude.{
  ℕ, ◌+◌, ◌-◌, ◌%◌, ◌^◌, Bool, true, false, not, Option, none, some, List, [], ◌∷◌, map, length,
  ltb, leb, if◌then◌else◌, any_by, Result, ok, err,
}
use storage_node_interface_p.Prelude.Eq.{◌==◌, nat_eq, list_eq, contains}
use storage_node_interface_p.Prelude.Assoc.{Assoc, lookup, insert, remove, retain}
use storage_node_interface_p.Merkle.{Bytes}
use storage_node_interface_p.Text.{Text}

abbrev pub max_l1_poll_age : ℕ
max_l1_poll_age = 300_000

pub data StoreError : Type 0 where
  io : StoreError

pub record ChunkStore : Type 0 where
  pub files : Assoc Text Bytes
  pub listable : Bool
  pub refuses : Text → Bool

unfoldable pub list_all_cids : ChunkStore → Result StoreError (List Text)
list_all_cids store = if store.listable then ok (map (λ entry. entry.0) store.files) else err io

-- Whether there was a file, or the error, and the store after.
unfoldable pub delete : Text → ChunkStore → ChunkStore × Result StoreError Bool
delete cid store = if store.refuses cid then (store, err io) else elim (lookup cid store.files) [
  | none ↦ (store, ok false)
  | some contents ↦ (
    record { files = remove cid store.files; listable = store.listable; refuses = store.refuses },
    ok true,
  )
]

-- `store.get(cid).map(|d| d.len() as u64).unwrap_or(0)`
unfoldable pub size_of : Text → ChunkStore → ℕ
size_of cid store = elim (lookup cid store.files) [ none ↦ 0 | some contents ↦ length contents ]

pub record GcResult : Type 0 where
  pub chunks_deleted : ℕ
  pub bytes_freed : ℕ
  pub chunks_retained : ℕ
  pub skipped : Bool

pub record GarbageCollector : Type 0 where
  pub unassigned_since : Assoc Text ℕ
  pub grace_period : ℕ

-- What one pass of the loop changes.
pub record Sweeping : Type 0 where
  pub tracked : Assoc Text ℕ
  pub store : ChunkStore
  pub result : GcResult

abbrev pub no_result : Bool → GcResult
no_result s = record { chunks_deleted = 0; bytes_freed = 0; chunks_retained = 0; skipped = s }

-- `*self.unassigned_since.entry(cid).or_insert(now)`
unfoldable pub first_seen : ℕ → Text → Assoc Text ℕ → ℕ
first_seen now cid tracked = elim (lookup cid tracked) [ none ↦ now | some since ↦ since ]

unfoldable pub or_insert : ℕ → Text → Assoc Text ℕ → Assoc Text ℕ
or_insert now cid tracked = elim (lookup cid tracked) [
  | none ↦ insert cid now tracked
  | some since ↦ tracked
]

-- Past the grace period: what the outcome of the deletion does to the pass.
unfoldable pub expire : Text → Assoc Text ℕ → Sweeping → Sweeping
expire cid tracked s =
    let size = size_of cid s.store in
    let (store, outcome) = delete cid s.store in
    let r = s.result in
    elim outcome [
      | err e ↦ record { tracked = tracked; store = store; result = r }
      | ok gone ↦
          if gone
          then record {
            tracked = remove cid tracked;
            store = store;
            result = record {
              chunks_deleted = (r.chunks_deleted + 1) % 2 ^ 32;
              bytes_freed = (r.bytes_freed + size) % 2 ^ 64;
              chunks_retained = r.chunks_retained;
              skipped = r.skipped;
            };
          }
          else record { tracked = tracked; store = store; result = r }
    ]

unfoldable pub retained_one : GcResult → GcResult
retained_one r = record {
  chunks_deleted = r.chunks_deleted;
  bytes_freed = r.bytes_freed;
  chunks_retained = (r.chunks_retained + 1) % 2 ^ 32;
  skipped = r.skipped;
}

-- The body of the loop.
unfoldable pub visit : ℕ → ℕ → (Text → Bool) → Text → Sweeping → Sweeping
visit grace now deletable cid s =
    if not (deletable cid)
    then s
    else let tracked = or_insert now cid s.tracked in
      if leb grace (now - first_seen now cid s.tracked)
      then expire cid tracked s
      else record { tracked = tracked; store = s.store; result = retained_one s.result }

unfoldable pub visit_all : ℕ → ℕ → (Text → Bool) → List Text → Sweeping → Sweeping
visit_all grace now deletable [] s = s
visit_all grace now deletable (cid ∷ rest) s =
    visit_all grace now deletable rest (visit grace now deletable cid s)

-- `elapsed` is `last_l1_poll.elapsed()`. The collector and the store after, and the result.
unfoldable pub sweep_where :
    GarbageCollector
    → ChunkStore
    → ℕ
    → ℕ
    → (Text → Bool)
    → GarbageCollector × ChunkStore × Result StoreError GcResult
sweep_where gc store elapsed now deletable =
    if ltb max_l1_poll_age elapsed
    then (gc, store, ok (no_result true))
    else elim (list_all_cids store) [
      | err e ↦ (gc, store, err e)
      | ok all_cids ↦
          let kept = retain (λ cid since. deletable cid) gc.unassigned_since in
          let s =
            visit_all gc.grace_period now deletable all_cids
              (record { tracked = kept; store = store; result = no_result false }) in
          (
            record { unassigned_since = s.tracked; grace_period = gc.grace_period },
            s.store,
            ok s.result,
          )
    ]

unfoldable pub mark_and_sweep :
    GarbageCollector
    → ChunkStore
    → List Text
    → ℕ
    → ℕ
    → GarbageCollector × ChunkStore × Result StoreError GcResult
mark_and_sweep gc store assigned_cids elapsed now =
    sweep_where gc store elapsed now (λ cid. not (contains assigned_cids cid))

unfoldable pub sweep_candidates :
    GarbageCollector
    → ChunkStore
    → List Text
    → ℕ
    → ℕ
    → GarbageCollector × ChunkStore × Result StoreError GcResult
sweep_candidates gc store candidates elapsed now =
    sweep_where gc store elapsed now (λ cid. contains candidates cid)

unfoldable pub tracked_count : GarbageCollector → ℕ
tracked_count gc = length gc.unassigned_since
