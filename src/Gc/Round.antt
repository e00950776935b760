-- ===== src/Gc/Round.antt =====
-- What one call of the collector does to each chunk of the store.
use storage_node_interface_p.Prelude.{
  ℕ, ◌-◌, ◌≡◌, refl, Bool, false, not, ◌&&◌, none, [], ◌∷◌, map, leb, if◌then◌else◌, arith, Result,
  Option-cases, Bool-cases, inl, inr,
}
use storage_node_interface_p.Prelude.Eq.{nat_eq, list_eq, list_beq_iff, contains}
use storage_node_interface_p.Prelude.Assoc.{Assoc, lookup, retain, IsMap, lookup-retain}
use storage_node_interface_p.Merkle.{Bytes}
use storage_node_interface_p.Text.{Text}
use storage_node_interface_p.Gc.{
  max_l1_poll_age, StoreError, ChunkStore, first_seen, visit_all, Sweeping, list_all_cids,
  GarbageCollector, sweep_where, GcResult, no_result,
}
use storage_node_interface_p.Gc.Sweep.{expired, lookup-visit_all}

-- One call of the collector: the store, the age of the last poll, the time, and what may go.
pub record Round : Type 1 where
  pub store : ChunkStore
  pub elapsed : ℕ
  pub now : ℕ
  pub deletable : Text → Bool

-- The sweep is not skipped: the chain was polled recently, and the store can be listed.
abbrev pub effective : Round → Bool
effective round = leb round.elapsed max_l1_poll_age && round.store.listable

abbrev pub sweep :
    GarbageCollector → Round → GarbageCollector × ChunkStore × Result StoreError GcResult
sweep gc round = sweep_where gc round.store round.elapsed round.now round.deletable

-- The loop of an effective sweep.
abbrev pub swept : GarbageCollector → Round → Sweeping
swept gc round =
    visit_all gc.grace_period round.now round.deletable (map (λ entry. entry.0) round.store.files)
      (record {
        tracked = retain (λ cid since. round.deletable cid) gc.unassigned_since;
        store = round.store;
        result = no_result false;
      })

pub sweep-tracked :
    (gc : GarbageCollector) (round : Round)
    → (sweep gc round).0.unassigned_since
      ≡ (if effective round then (swept gc round).tracked else gc.unassigned_since)
unfolding sweep_where list_all_cids
sweep-tracked gc round = ground arith

sweep-store :
    (gc : GarbageCollector) (round : Round)
    → (sweep gc round).1 ≡ (if effective round then (swept gc round).store else round.store)
unfolding sweep_where list_all_cids
sweep-store gc round = ground arith

lookup-unlisted :
    (k : Text) (files : Assoc Text Bytes)
    → contains (map (λ entry. entry.0) files) k ≡ false
    → lookup k files ≡ none
unfolding lookup
lookup-unlisted k [] h = refl
lookup-unlisted k ((cid, contents) ∷ rest) h =
    ground (arith, list_beq_iff cid k, lookup-unlisted k rest)

expired-retain :
    (grace now : ℕ) (deletable : Text → Bool) (k : Text) (tracked : Assoc Text ℕ)
    → IsMap tracked
    → expired grace now deletable k (retain (λ cid since. deletable cid) tracked)
      ≡ expired grace now deletable k tracked
unfolding expired first_seen
expired-retain grace now deletable k tracked m = elim (Option-cases (lookup k tracked)) [
  | inl absent ↦ ground (arith, absent, lookup-retain (λ cid since. deletable cid) k tracked m)
  | inr (since, present) ↦
      ground (arith, present, lookup-retain (λ cid since. deletable cid) k tracked m)
]

-- When the collector's map has one entry for each key, a sweep leaves no file for a CID exactly
-- when there was none, or the sweep is not skipped, the CID is deletable, it was first seen
-- unassigned a grace period ago and its deletion is not refused; every other file is left as it
-- was.
pub lookup-sweep_where :
    (gc : GarbageCollector) (round : Round) (cid : Text)
    → IsMap gc.unassigned_since
    → lookup cid (sweep gc round).1.files ≡ (
        if effective round
          && round.deletable cid
          && leb gc.grace_period (round.now - first_seen round.now cid gc.unassigned_since)
          && not (round.store.refuses cid)
        then none
        else lookup cid round.store.files)
unfolding expired
lookup-sweep_where gc round cid m =
    let cids = map (λ entry. entry.0) round.store.files in
    let kept = retain (λ k since. round.deletable k) gc.unassigned_since in
    let s : Sweeping = record { tracked = kept; store = round.store; result = no_result false } in
    let after = lookup-visit_all gc.grace_period round.now round.deletable cids cid s in
    let due = expired-retain gc.grace_period round.now round.deletable cid gc.unassigned_since m in
    let listed = lookup-unlisted cid round.store.files in
    elim (Bool-cases (effective round)) [
      | inl e ↦ elim (Bool-cases (contains cids cid)) [
        | inl there ↦ ground (arith, sweep-store gc round, e, after, due, there)
        | inr absent ↦ ground (arith, sweep-store gc round, e, after, absent, listed absent)
      ]
      | inr e ↦ ground (arith, sweep-store gc round, e)
    ]
