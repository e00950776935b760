-- ===== src/Route/View.antt =====
-- The routing view of a file against the assignment of its chunks.
use storage_node_interface_p.Prelude.{
  ℕ, ◌≡◌, refl, sym, ap, subst, ◌∙◌, true, false, ◌||◌, none, some, List, [], ◌∷◌, length, nat_beq,
  nat_beq_iff, if◌then◌else◌, any_by, Result, ok, Result-cases, Bool-cases, inl, inr, arith,
}
use storage_node_interface_p.Prelude.Assoc.{Assoc, lookup, insert, lookup-insert}
use storage_node_interface_p.Prelude.Eq.{nat_eq, contains}
use storage_node_interface_p.Text.{Text}
use storage_node_interface_p.Merkle.{Bytes}
use storage_node_interface_p.Rendezvous.{insert_sorted, sort, assigned_archives}
use storage_node_interface_p.Rendezvous.Snapshot.{contains-insert_sorted}
use storage_node_interface_p.PushValidator.Ask.{
  External, Chain, StorageFileInfoV2, filter_active_archives,
}
use storage_node_interface_p.Route.{
  V2AssignmentView, V2AssignmentError, parse_addresses, insert_all, assign_all, view_of,
  build_v2_assignment_view,
}

module _ (ext : External) where
  contains-insert_all :
      (z : ℕ) (assigned set : List ℕ)
      → contains (insert_all ext assigned set) z ≡ (contains set z || contains assigned z)
  unfolding insert_all
  contains-insert_all z [] set = ground arith
  contains-insert_all z (a ∷ assigned) set = ground (
    arith,
    contains-insert_all z assigned (if contains set a then set else insert_sorted a set),
    contains-insert_sorted a z set,
    nat_beq_iff a z,
    member_ext a z set,
  )
    where
      member_ext : (x y : ℕ) (s : List ℕ) → x ≡ y → contains s x ≡ contains s y
      member_ext x y s e = ap (contains s) e

  module _ (root : Bytes) where
    -- The set of a chunk in the view.
    abbrev pub set_of : V2AssignmentView → ℕ → List ℕ
    set_of v c = assigned_archives ext.wire root v.snapshot c v.r

    -- What a view says when its sets are by this snapshot and replication factor.
    abbrev Routed : List ℕ → V2AssignmentView → List ℕ → ℕ → Type 0
    Routed indices v snapshot r =
        ((c : ℕ)
          → lookup c v.per_chunk_assigned ≡ (
              if contains indices c
              then some (assigned_archives ext.wire root snapshot c r)
              else none))
        × ((c : ℕ)
            → contains indices c ≡ true
            → nat_beq (length (assigned_archives ext.wire root snapshot c r)) 0 ≡ false)
        × ((z : ℕ)
            → contains v.distinct_assigned z
              ≡ any_by (λ c. contains (assigned_archives ext.wire root snapshot c r) z) indices)

    -- The view has the set of each of the chunks, which is not empty, and no other; and its union is
    -- the union of these sets.
    abbrev pub Routes : List ℕ → V2AssignmentView → Type 0
    Routes indices v =
        ((c : ℕ)
          → lookup c v.per_chunk_assigned
            ≡ (if contains indices c then some (set_of v c) else none))
        × ((c : ℕ) → contains indices c ≡ true → nat_beq (length (set_of v c)) 0 ≡ false)
        × ((z : ℕ) → contains v.distinct_assigned z ≡ any_by (λ c. contains (set_of v c) z) indices)

    abbrev Extends : List ℕ → ℕ → List ℕ → List ℕ → Assoc ℕ (List ℕ) → V2AssignmentView → Type 0
    Extends snapshot r indices distinct per_chunk v =
        (v.snapshot ≡ snapshot)
        × (v.r ≡ r)
        × ((c : ℕ)
            → lookup c v.per_chunk_assigned ≡ (
                if contains indices c
                then some (assigned_archives ext.wire root snapshot c r)
                else lookup c per_chunk))
        × ((c : ℕ)
            → contains indices c ≡ true
            → nat_beq (length (assigned_archives ext.wire root snapshot c r)) 0 ≡ false)
        × ((z : ℕ)
            → contains v.distinct_assigned z ≡ (
                contains distinct z
                || any_by (λ c. contains (assigned_archives ext.wire root snapshot c r) z) indices))

    ok_eq :
        {a b : V2AssignmentView}
        → ◌≡◌ {A = Result V2AssignmentError V2AssignmentView} (ok a) (ok b)
        → a ≡ b
    ok_eq e = cc

    assign_all-Extends :
        (snapshot : List ℕ) (r : ℕ) (indices distinct : List ℕ) (per_chunk : Assoc ℕ (List ℕ))
        (v : V2AssignmentView)
        → assign_all ext root snapshot r indices distinct per_chunk ≡ ok v
        → Extends snapshot r indices distinct per_chunk v
    unfolding assign_all
    assign_all-Extends snapshot r [] distinct per_chunk v h =
        subst (Extends snapshot r [] distinct per_chunk) (ok_eq h)
          (refl, refl, λ c. refl, λ c e. absurd (cc), λ z. ground arith)
    assign_all-Extends snapshot r (i ∷ indices) distinct per_chunk v h =
        let assigned = assigned_archives ext.wire root snapshot i r in
        elim (Bool-cases (nat_beq (length assigned) 0)) [
          | inl empty ↦ absurd (ground (arith, h, empty))
          | inr full ↦
              let (s, q, looks, sizes, members) =
                assign_all-Extends snapshot r indices (insert_all ext assigned distinct)
                  (insert i assigned per_chunk) v (ground (arith, h, full)) in
              (
                s,
                q,
                λ c. elim (Bool-cases (nat_beq i c)) [
                  | inl hit ↦
                      let same : assigned ≡ assigned_archives ext.wire root snapshot c r =
                        ap (λ k. assigned_archives ext.wire root snapshot k r)
                          ((nat_beq_iff i c).0 hit) in
                      ground
                        (arith, looks c, lookup-insert i c assigned per_chunk, hit, ap some same)
                  | inr miss ↦ ground (arith, looks c, lookup-insert i c assigned per_chunk, miss)
                ],
                λ c e. elim (Bool-cases (nat_beq i c)) [
                  | inl hit ↦
                      ap (λ k. nat_beq (length (assigned_archives ext.wire root snapshot k r)) 0)
                        (sym ((nat_beq_iff i c).0 hit))
                      ∙ full
                  | inr miss ↦ sizes c (ground (arith, e, miss))
                ],
                λ z. ground (arith, members z, contains-insert_all z assigned distinct),
              )
        ]

    -- A view that is built has, by its snapshot and replication factor, the assigned archives of
    -- every chunk that was asked for, which are never none, and of no other chunk; and its union
    -- holds the archives of these chunks, and no other.
    pub build_v2_assignment_view-Routes :
        (chain : Chain) (params : Result Text ℕ) (info : StorageFileInfoV2) (indices : List ℕ)
        (v : V2AssignmentView)
        → build_v2_assignment_view ext chain params info root indices ≡ ok v
        → Routes indices v
    unfolding build_v2_assignment_view view_of lookup
    build_v2_assignment_view-Routes chain params info indices v h =
        elim (Result-cases (chain.storage_get_active_nodes_at_height info.assignment_height)) [
          | inr (e, a) ↦ absurd (ground (arith, h, a))
          | inl (records, a) ↦
              elim (Result-cases (parse_addresses ext (filter_active_archives records))) [
                | inr (e, p) ↦ absurd (ground (arith, h, a, p))
                | inl (found, p) ↦ elim (Bool-cases (nat_beq (length (sort found)) 0)) [
                  | inl empty ↦ absurd (ground (arith, h, a, p, empty))
                  | inr full ↦ elim (Result-cases params) [
                    | inr (e, q) ↦ absurd (ground (arith, h, a, p, full, q))
                    | inl (r, q) ↦
                        let (same, same_r, looks, sizes, members) =
                          assign_all-Extends (sort found) r indices [] [] v
                            (ground (arith, h, a, p, full, q)) in
                        subst (λ n. Routed indices v n v.r) (sym same)
                          (subst (λ k. Routed indices v (sort found) k) (sym same_r)
                            (looks, sizes, members))
                  ]
                ]
              ]
        ]
