-- ===== src/Gc/Grace.antt =====
-- When the collector takes a chunk away, over a history of calls.
use storage_node_interface_p.Prelude.{
  ℕ, ◌-◌, ◌≤◌, ◌≡◌, refl, sym, ap, subst, ◌∙◌, Bool, true, ◌&&◌, ◌⊎◌, none, some, List, [], ◌∷◌,
  map, if◌then◌else◌, arith, Result-cases, Option-cases, Bool-cases, inl, inr,
}
use storage_node_interface_p.Prelude.Eq.{◌==◌, nat_eq, list_eq, list_beq_iff}
use storage_node_interface_p.Prelude.Assoc.{
  Assoc, lookup, retain, IsMap, lookup-retain, insert-IsMap, remove-IsMap, retain-IsMap,
}
use storage_node_interface_p.Merkle.{Bytes}
use storage_node_interface_p.Text.{Text}
use storage_node_interface_p.Gc.{
  delete, first_seen, or_insert, expire, visit, visit_all, Sweeping, list_all_cids,
  GarbageCollector, sweep_where,
}
use storage_node_interface_p.Gc.Sweep.{lookup-visit-tracked}
use storage_node_interface_p.Gc.Round.{
  Round, effective, sweep, swept, sweep-tracked, lookup-sweep_where,
}

visit-tracked :
    (grace now : ℕ) (deletable : Text → Bool) (cid k : Text) (s : Sweeping) (since : ℕ)
    → lookup k (visit grace now deletable cid s).tracked ≡ some since
    → (lookup k s.tracked ≡ some since) ⊎ ((since ≡ now) × (deletable k ≡ true))
unfolding first_seen
visit-tracked grace now deletable cid k s since e =
    let tracked = lookup-visit-tracked grace now deletable cid k s in
    elim (Bool-cases (cid == k && deletable cid)) [
      | inl same ↦
          let path = (list_beq_iff cid k).0 (ground (arith, same)) in
          let may : deletable k ≡ true = ground (arith, same, path) in
          elim (Option-cases (lookup cid s.tracked)) [
            | inl absent ↦ inr (ground (arith, tracked, same, e, absent), may)
            | inr (t, present) ↦ inl (ground (arith, tracked, same, e, present, path))
          ]
      | inr differs ↦ inl (ground (arith, tracked, differs, e))
    ]

visit_all-tracked :
    (grace now : ℕ) (deletable : Text → Bool) (cids : List Text) (k : Text) (s : Sweeping)
    (since : ℕ)
    → lookup k (visit_all grace now deletable cids s).tracked ≡ some since
    → (lookup k s.tracked ≡ some since) ⊎ ((since ≡ now) × (deletable k ≡ true))
unfolding visit_all
visit_all-tracked grace now deletable [] k s since e = inl e
visit_all-tracked grace now deletable (cid ∷ rest) k s since e =
    elim (visit_all-tracked grace now deletable rest k (visit grace now deletable cid s) since e) [
      | inl before ↦ visit-tracked grace now deletable cid k s since before
      | inr h ↦ inr h
    ]

or_insert-IsMap :
    (now : ℕ) (cid : Text) (tracked : Assoc Text ℕ)
    → IsMap tracked
    → IsMap (or_insert now cid tracked)
unfolding or_insert
or_insert-IsMap now cid tracked m = elim (Option-cases (lookup cid tracked)) [
  | inl absent ↦ ground (arith, absent, insert-IsMap cid now tracked m)
  | inr (since, present) ↦ ground (arith, present, m)
]

expire-IsMap :
    (cid : Text) (tracked : Assoc Text ℕ) (s : Sweeping)
    → IsMap tracked
    → IsMap (expire cid tracked s).tracked
unfolding expire
expire-IsMap cid tracked s m = elim (Result-cases (delete cid s.store).1) [
  | inl (gone, h) ↦ ground (arith, h, m, remove-IsMap cid tracked m)
  | inr (e, h) ↦ ground (arith, h, m)
]

visit-IsMap :
    (grace now : ℕ) (deletable : Text → Bool) (cid : Text) (s : Sweeping)
    → IsMap s.tracked
    → IsMap (visit grace now deletable cid s).tracked
unfolding visit
visit-IsMap grace now deletable cid s m =
    let known = or_insert-IsMap now cid s.tracked m in
    ground (arith, m, known, expire-IsMap cid (or_insert now cid s.tracked) s known)

visit_all-IsMap :
    (grace now : ℕ) (deletable : Text → Bool) (cids : List Text) (s : Sweeping)
    → IsMap s.tracked
    → IsMap (visit_all grace now deletable cids s).tracked
unfolding visit_all
visit_all-IsMap grace now deletable [] s m = m
visit_all-IsMap grace now deletable (cid ∷ rest) s m =
    visit_all-IsMap grace now deletable rest (visit grace now deletable cid s)
      (visit-IsMap grace now deletable cid s m)

sweep-IsMap :
    (gc : GarbageCollector) (round : Round)
    → IsMap gc.unassigned_since
    → IsMap (sweep gc round).0.unassigned_since
sweep-IsMap gc round m =
    let kept = retain-IsMap (λ cid since. round.deletable cid) gc.unassigned_since m in
    let later =
      visit_all-IsMap gc.grace_period round.now round.deletable
        (map (λ entry. entry.0) round.store.files) _ kept in
    elim (Bool-cases (effective round)) [
      | inl e ↦
          subst IsMap
            (sym (
              sweep-tracked gc round
              ∙ ap (λ b. if b then (swept gc round).tracked else gc.unassigned_since) e))
            later
      | inr e ↦
          subst IsMap
            (sym (
              sweep-tracked gc round
              ∙ ap (λ b. if b then (swept gc round).tracked else gc.unassigned_since) e))
            m
    ]

-- The collector after the calls, the last call first.
unfoldable pub collector : ℕ → List Round → GarbageCollector
collector grace [] = record { unassigned_since = []; grace_period = grace }
collector grace (round ∷ earlier) = (sweep (collector grace earlier) round).0

-- Since `since`, when there was a sweep, every sweep that was not skipped held the chunk deletable.
abbrev pub UnassignedSince : Text → ℕ → List Round → Type 0
UnassignedSince cid since [] = ⊥
UnassignedSince cid since (round ∷ earlier) =
    if effective round
    then (round.deletable cid ≡ true) × ((round.now ≡ since) ⊎ UnassignedSince cid since earlier)
    else UnassignedSince cid since earlier

collector-grace : (grace : ℕ) (rounds : List Round) → (collector grace rounds).grace_period ≡ grace
unfolding collector sweep_where
collector-grace grace [] = refl
collector-grace grace (round ∷ earlier) = elim (Result-cases (list_all_cids round.store)) [
  | inl (cids, h) ↦ ground (arith, h, collector-grace grace earlier)
  | inr (e, h) ↦ ground (arith, h, collector-grace grace earlier)
]

collector-IsMap :
    (grace : ℕ) (rounds : List Round) → IsMap (collector grace rounds).unassigned_since
unfolding collector
collector-IsMap grace [] = tt
collector-IsMap grace (round ∷ earlier) =
    sweep-IsMap (collector grace earlier) round (collector-IsMap grace earlier)

tracked-retain :
    (deletable : Text → Bool) (cid : Text) (since : ℕ) (tracked : Assoc Text ℕ)
    → IsMap tracked
    → lookup cid (retain (λ k t. deletable k) tracked) ≡ some since
    → (deletable cid ≡ true) × (lookup cid tracked ≡ some since)
tracked-retain deletable cid since tracked m e =
    let kept = lookup-retain (λ k t. deletable k) cid tracked m in
    elim (Option-cases (lookup cid tracked)) [
      | inl absent ↦ absurd (ground (arith, kept, e, absent))
      | inr (t, present) ↦ (ground (arith, kept, e, present), ground (arith, kept, e, present))
    ]

-- What the collector tracks has been unassigned since the time that it notes.
pub collector-UnassignedSince :
    (grace : ℕ) (rounds : List Round) (cid : Text) (since : ℕ)
    → lookup cid (collector grace rounds).unassigned_since ≡ some since
    → UnassignedSince cid since rounds
unfolding collector lookup
collector-UnassignedSince grace [] cid since e = absurd (cc)
collector-UnassignedSince grace (round ∷ earlier) cid since e =
    let gc = collector grace earlier in
    let before = collector-UnassignedSince grace earlier cid since in
    let m = collector-IsMap grace earlier in
    elim (Bool-cases (effective round)) [
      | inl held ↦
          let now : lookup cid (swept gc round).tracked ≡ some since =
            ap (λ t. lookup cid t)
              (sym (
                sweep-tracked gc round
                ∙ ap (λ b. if b then (swept gc round).tracked else gc.unassigned_since) held))
            ∙ e in
          elim (visit_all-tracked gc.grace_period round.now round.deletable
            (map (λ entry. entry.0) round.store.files) cid _ since now) [
              | inl kept ↦
                  let (may, known) =
                    tracked-retain round.deletable cid since gc.unassigned_since m kept in
                  rw held (may, inr (before known))
              | inr (same, may) ↦ rw held (may, inl (sym same))
            ]
      | inr skipped ↦
          let same : lookup cid gc.unassigned_since ≡ some since =
            ap (λ t. lookup cid t)
              (sym (
                sweep-tracked gc round
                ∙ ap (λ b. if b then (swept gc round).tracked else gc.unassigned_since) skipped))
            ∙ e in
          rw skipped (before same)
    ]

-- After any history of sweeps, a sweep takes a stored chunk away only when it is not skipped and
-- there is a time, a grace period or more ago, since when every sweep that was not skipped held
-- the chunk deletable.
pub swept-UnassignedSince :
    (grace : ℕ) (earlier : List Round) (round : Round) (cid : Text) (contents : Bytes)
    → lookup cid round.store.files ≡ some contents
    → lookup cid (sweep (collector grace earlier) round).1.files ≡ none
    → (effective round ≡ true)
      × (since : ℕ) × (grace ≤ round.now - since)
      × UnassignedSince cid since (round ∷ earlier)
unfolding first_seen
swept-UnassignedSince grace earlier round cid contents there gone =
    let gc = collector grace earlier in
    let taken = lookup-sweep_where gc round cid (collector-IsMap grace earlier) in
    let long = collector-grace grace earlier in
    let since = first_seen round.now cid gc.unassigned_since in
    let held : effective round ≡ true = ground (arith, taken, there, gone) in
    let may : round.deletable cid ≡ true = ground (arith, taken, there, gone) in
    let waited : grace ≤ round.now - since = ground (arith, taken, there, gone, long) in
    (
      held,
      since,
      waited,
      rw held (
        may,
        elim (Option-cases (lookup cid gc.unassigned_since)) [
          | inl absent ↦ inl (ground (arith, absent))
          | inr (t, present) ↦
              inr (collector-UnassignedSince grace earlier cid since (ground (arith, present)))
        ],
      ),
    )
