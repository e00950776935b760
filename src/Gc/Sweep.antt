-- ===== src/Gc/Sweep.antt =====
-- What one visit, and one pass over the listing, does to each chunk of the store.
use storage_node_interface_p.Prelude.{
  ℕ, ◌-◌, ◌≡◌, refl, Bool, true, false, not, none, some, List, [], ◌∷◌, leb, ◌&&◌, ◌⊎◌,
  if◌then◌else◌, arith, Result-cases, Option-cases, Bool-cases, inl, inr,
}
use storage_node_interface_p.Prelude.Eq.{◌==◌, nat_eq, list_eq, list_beq_iff, contains}
use storage_node_interface_p.Prelude.Assoc.{Assoc, lookup, lookup-insert, lookup-remove}
use storage_node_interface_p.Text.{Text}
use storage_node_interface_p.Gc.{
  ChunkStore, delete, first_seen, or_insert, expire, visit, visit_all, Sweeping,
}

-- What a deletion leaves of a chunk.
lookup-delete :
    (cid k : Text) (store : ChunkStore)
    → lookup k (delete cid store).0.files ≡ (
        if cid == k
        then (if store.refuses cid then lookup k store.files else none)
        else lookup k store.files)
unfolding delete
lookup-delete cid k store = elim (Option-cases (lookup cid store.files)) [
  | inl absent ↦ ground (arith, list_beq_iff cid k, absent)
  | inr (contents, present) ↦
      ground (arith, list_beq_iff cid k, present, lookup-remove cid k store.files)
]

lookup-or_insert :
    (now : ℕ) (cid k : Text) (tracked : Assoc Text ℕ)
    → lookup k (or_insert now cid tracked)
      ≡ (if cid == k then some (first_seen now cid tracked) else lookup k tracked)
unfolding or_insert first_seen
lookup-or_insert now cid k tracked = elim (Option-cases (lookup cid tracked)) [
  | inl absent ↦ ground (arith, list_beq_iff cid k, absent, lookup-insert cid k now tracked)
  | inr (since, present) ↦ ground (arith, list_beq_iff cid k, present)
]

refuses-delete : (cid : Text) (store : ChunkStore) → (delete cid store).0.refuses ≡ store.refuses
unfolding delete
refuses-delete cid store = elim (Option-cases (lookup cid store.files)) [
  | inl absent ↦ ground (arith, absent)
  | inr (contents, present) ↦ ground (arith, present)
]

expire-store :
    (cid : Text) (tracked : Assoc Text ℕ) (s : Sweeping)
    → (expire cid tracked s).store ≡ (delete cid s.store).0
unfolding expire
expire-store cid tracked s = elim (Result-cases (delete cid s.store).1) [
  | inl (gone, h) ↦ ground (arith, h)
  | inr (e, h) ↦ ground (arith, h)
]

unfoldable pub is_stored : Text → ChunkStore → Bool
is_stored cid store = elim (lookup cid store.files) [ none ↦ false | some contents ↦ true ]

lookup-expire :
    (cid k : Text) (tracked : Assoc Text ℕ) (s : Sweeping)
    → lookup k (expire cid tracked s).tracked ≡ (
        if cid == k && not (s.store.refuses cid) && is_stored cid s.store
        then none
        else lookup k tracked)
unfolding expire delete is_stored
lookup-expire cid k tracked s = elim (Option-cases (lookup cid s.store.files)) [
  | inl absent ↦ ground (arith, absent)
  | inr (contents, present) ↦ ground (arith, present, lookup-remove cid k tracked)
]

-- A chunk that may go: deletable, and seen unassigned for the grace period.
unfoldable pub expired : ℕ → ℕ → (Text → Bool) → Text → Assoc Text ℕ → Bool
expired grace now deletable cid tracked =
    deletable cid && leb grace (now - first_seen now cid tracked)

lookup-visit :
    (grace now : ℕ) (deletable : Text → Bool) (cid k : Text) (s : Sweeping)
    → lookup k (visit grace now deletable cid s).store.files ≡ (
        if cid == k && expired grace now deletable cid s.tracked && not (s.store.refuses cid)
        then none
        else lookup k s.store.files)
unfolding visit expired
lookup-visit grace now deletable cid k s =
    ground (arith, expire-store cid (or_insert now cid s.tracked) s, lookup-delete cid k s.store)

refuses-visit :
    (grace now : ℕ) (deletable : Text → Bool) (cid : Text) (s : Sweeping)
    → (visit grace now deletable cid s).store.refuses ≡ s.store.refuses
unfolding visit
refuses-visit grace now deletable cid s =
    ground (arith, expire-store cid (or_insert now cid s.tracked) s, refuses-delete cid s.store)

pub lookup-visit-tracked :
    (grace now : ℕ) (deletable : Text → Bool) (cid k : Text) (s : Sweeping)
    → lookup k (visit grace now deletable cid s).tracked ≡ (
        if not (cid == k && deletable cid)
        then lookup k s.tracked
        else if expired grace now deletable cid s.tracked
            && (not (s.store.refuses cid) && is_stored cid s.store)
        then none
        else some (first_seen now cid s.tracked))
unfolding visit expired
lookup-visit-tracked grace now deletable cid k s = ground (
  arith,
  lookup-expire cid k (or_insert now cid s.tracked) s,
  lookup-or_insert now cid k s.tracked,
)

-- A visit takes a chunk away, or leaves it as due as it was.
expired-visit :
    (grace now : ℕ) (deletable : Text → Bool) (cid k : Text) (s : Sweeping)
    → (lookup k (visit grace now deletable cid s).store.files ≡ none)
      ⊎ (expired grace now deletable k (visit grace now deletable cid s).tracked
          ≡ expired grace now deletable k s.tracked)
unfolding expired first_seen
expired-visit grace now deletable cid k s =
    let files = lookup-visit grace now deletable cid k s in
    let tracked = lookup-visit-tracked grace now deletable cid k s in
    elim (Bool-cases (cid == k)) [
      | inl same ↦
          let path = (list_beq_iff cid k).0 same in
          elim (Bool-cases
            (expired grace now deletable cid s.tracked && not (s.store.refuses cid))) [
              | inl go ↦ inl (ground (arith, files, same, go))
              | inr stay ↦ inr (ground (arith, tracked, same, stay, path))
            ]
      | inr differs ↦ inr (ground (arith, tracked, differs))
    ]

-- One pass takes away exactly the listed chunks that are due and that the file system lets go.
pub lookup-visit_all :
    (grace now : ℕ) (deletable : Text → Bool) (cids : List Text) (k : Text) (s : Sweeping)
    → lookup k (visit_all grace now deletable cids s).store.files ≡ (
        if contains cids k && expired grace now deletable k s.tracked && not (s.store.refuses k)
        then none
        else lookup k s.store.files)
unfolding visit_all
lookup-visit_all grace now deletable [] k s = refl
lookup-visit_all grace now deletable (cid ∷ rest) k s =
    let next = visit grace now deletable cid s in
    let files = lookup-visit grace now deletable cid k s in
    let refuses = refuses-visit grace now deletable cid s in
    let later = lookup-visit_all grace now deletable rest k next in
    elim (Bool-cases (cid == k)) [
      | inl same ↦
          let path = (list_beq_iff cid k).0 same in
          elim (expired-visit grace now deletable cid k s) [
            | inl gone ↦ ground (arith, files, refuses, later, same, path, gone)
            | inr due ↦ ground (arith, files, refuses, later, same, path, due)
          ]
      | inr differs ↦ elim (expired-visit grace now deletable cid k s) [
        | inl gone ↦ ground (arith, files, refuses, later, differs, gone)
        | inr due ↦ ground (arith, files, refuses, later, differs, due)
      ]
    ]
