-- ===== src/Index/Table.antt =====
-- A map of maps, `HashMap<[u8; 32], BTreeMap<u32, V>>`, which is read and written at a root and an
-- index.
use storage_node_interface_p.Prelude.{
  ℕ, ◌≡◌, ◌⊎◌, ap, nat_beq_iff, Option, none, some, [], if◌then◌else◌, refl, Bool-cases, inl, inr,
  sym, ◌∙◌,
}
use storage_node_interface_p.Prelude.Eq.{◌==◌, nat_eq, list_eq, ==_refl, list_beq_iff}
use storage_node_interface_p.Prelude.Assoc.{Assoc, lookup, insert, lookup-insert}
use storage_node_interface_p.Merkle.{Bytes}

abbrev pub Rows {ℓ} : Type ℓ → Type ℓ
Rows V = Assoc Bytes (Assoc ℕ V)

module _ {ℓ} {V : Type ℓ} where
  abbrev in_row : ℕ → Option (Assoc ℕ V) → Option V
  in_row i none = none
  in_row i (some row) = lookup i row

  abbrev or_default : Option (Assoc ℕ V) → Assoc ℕ V
  or_default none = []
  or_default (some row) = row

  -- `get(root).and_then(|m| m.get(index))`
  unfoldable pub find : Bytes → ℕ → Rows V → Option V
  find root i m = in_row i (lookup root m)

  -- `entry(root).or_default().insert(index, v)`
  unfoldable pub file : Bytes → ℕ → V → Rows V → Rows V
  file root i v m = insert root (insert i v (or_default (lookup root m))) m

  lookup-or_default : (j : ℕ) (row : Option (Assoc ℕ V)) → lookup j (or_default row) ≡ in_row j row
  unfolding lookup
  lookup-or_default j none = refl
  lookup-or_default j (some row) = refl

  pub find-file :
      (root at : Bytes) (i j : ℕ) (v : V) (m : Rows V)
      → find at j (file root i v m)
        ≡ (if root == at then (if i == j then some v else find at j m) else find at j m)
  unfolding find file
  find-file root at i j v m =
      let row = insert i v (or_default (lookup root m)) in
      elim (Bool-cases (root == at)) [
        | inl here ↦
            let same : root ≡ at = (list_beq_iff root at).0 here in
            let there : lookup at (insert root row m) ≡ some row =
              lookup-insert root at row m ∙ rw (here) refl in
            let read : in_row j (lookup root m) ≡ in_row j (lookup at m) =
              ap (λ r. in_row j (lookup r m)) same in
            let old = lookup-or_default j (lookup root m) in
            let write : lookup j row ≡ (if i == j then some v else in_row j (lookup at m)) =
              lookup-insert i j v (or_default (lookup root m))
              ∙ ap (λ o. if i == j then some v else o) (old ∙ read) in
            rw (here) (ap (in_row j) there ∙ write)
        | inr other ↦
            let there : lookup at (insert root row m) ≡ lookup at m =
              lookup-insert root at row m ∙ rw (other) refl in
            rw (other) (ap (in_row j) there)
      ]

  pub find-file_at :
      (root : Bytes) (i : ℕ) (v : V) (m : Rows V) → find root i (file root i v m) ≡ some v
  find-file_at root i v m = find-file root root i i v m ∙ rw (==_refl root, ==_refl i) refl

  -- An entry afterwards is old, or is the one written.
  pub find-file_cases :
      (root at : Bytes) (i j : ℕ) (v w : V) (m : Rows V)
      → find at j (file root i v m) ≡ some w
      → (find at j m ≡ some w) ⊎ ((root ≡ at) × (i ≡ j) × (v ≡ w))
  find-file_cases root at i j v w m e =
      let law = find-file root at i j v m in
      elim (Bool-cases (root == at)) [
        | inr other ↦ inl (sym (law ∙ rw (other) refl) ∙ e)
        | inl here ↦ elim (Bool-cases (i == j)) [
          | inr other ↦ inl (sym (law ∙ rw (here, other) refl) ∙ e)
          | inl there ↦
              let read : some v ≡ some w = sym (law ∙ rw (here, there) refl) ∙ e in
              inr ((list_beq_iff root at).0 here, (nat_beq_iff i j).0 there, cc)
        ]
      ]

  -- An entry is kept, or the one written takes its place.
  pub find-file_kept :
      (root at : Bytes) (i j : ℕ) (v w : V) (m : Rows V)
      → find at j m ≡ some w
      → (find at j (file root i v m) ≡ some w)
        ⊎ ((root ≡ at) × (i ≡ j) × (find at j (file root i v m) ≡ some v))
  find-file_kept root at i j v w m e =
      let law = find-file root at i j v m in
      elim (Bool-cases (root == at)) [
        | inr other ↦ inl (law ∙ rw (other) e)
        | inl here ↦ elim (Bool-cases (i == j)) [
          | inr other ↦ inl (law ∙ rw (here, other) e)
          | inl there ↦ inr (
            (list_beq_iff root at).0 here,
            (nat_beq_iff i j).0 there,
            law ∙ rw (here, there) refl,
          )
        ]
      ]
