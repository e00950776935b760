-- ===== src/Assignment/Probe.antt =====
-- The probing loop ends at a free node, and never ends where there is none.
use native.Mathlib.Nat.{mod-lt, mod-eq_of_lt, mod-add-mod, add-mod-mod, add-mod_right}
use storage_node_interface_p.Prelude.{
  ℕ, zero, suc, ◌+◌, ◌-◌, ◌%◌, ◌<◌, ◌≡◌, refl, sym, ap, ◌∙◌, true, false, none, some, List, [], ◌∷◌,
  arith, length, All, get_elem?, Bool-cases, inl, inr, get_elem?_of_lt, get_elem?-lt, get_elem?-All,
  Option-cases,
}
use storage_node_interface_p.Prelude.Eq.{contains, IsDistinct, nat_eq}
use storage_node_interface_p.Assignment.{probe}
use storage_node_interface_p.Assignment.Pigeonhole.{some_free}

contains-get_elem? : (xs : List ℕ) (i : ℕ) (x : ℕ) → get_elem? xs i ≡ some x → contains xs x ≡ true
contains-get_elem? [] i x e = absurd (cc)
contains-get_elem? (y ∷ ys) zero x e = ground arith
contains-get_elem? (y ∷ ys) (suc i) x e = ground (arith, contains-get_elem? ys i x e)

-- A node that the loop picks is active and was not assigned.
pub probe-free :
    (fuel : ℕ) (nodes assigned : List ℕ) (idx a : ℕ)
    → probe fuel nodes assigned idx ≡ some a
    → (contains assigned a ≡ false) × (contains nodes a ≡ true)
unfolding probe
probe-free zero nodes assigned idx a e = absurd (cc)
probe-free (suc fuel) nodes assigned idx a e = ground (
  arith,
  probe-free fuel nodes assigned ((idx + 1) % length nodes) a,
  contains-get_elem? nodes idx a,
)

next_place : (idx d n : ℕ) → 0 < n → ((idx + 1) % n + d) % n ≡ (idx + suc d) % n
next_place idx d n h = mod-add-mod (idx + 1) n d ∙ ap (λ (k : ℕ). k % n) (omega arith)

same_place : (idx n : ℕ) → idx < n → (idx + 0) % n ≡ idx
same_place idx n h = ap (λ (k : ℕ). k % n) (omega arith) ∙ mod-eq_of_lt h

place_ahead : (idx j n : ℕ) → idx < n → j < n → (idx + (j + n - idx) % n) % n ≡ j
place_ahead idx j n h k =
    add-mod-mod idx (j + n - idx) n
    ∙ ap (λ (m : ℕ). m % n) (let whole : idx + (j + n - idx) ≡ j + n = omega arith in whole)
    ∙ add-mod_right j n
    ∙ mod-eq_of_lt k

-- A free node `d` places on is reached, or one before it.
probe-reaches :
    (fuel : ℕ) (nodes assigned : List ℕ) (idx d a : ℕ)
    → d < fuel
    → idx < length nodes
    → get_elem? nodes ((idx + d) % length nodes) ≡ some a
    → contains assigned a ≡ false
    → (b : ℕ) × (probe fuel nodes assigned idx ≡ some b)
unfolding probe
probe-reaches zero nodes assigned idx d a h k e free = absurd (omega arith)
probe-reaches (suc fuel) nodes assigned idx zero a h k e free = (a, ground (arith, here))
  where
    here : get_elem? nodes idx ≡ some a
    here = ap (get_elem? nodes) (sym (same_place idx (length nodes) k)) ∙ e
probe-reaches (suc fuel) nodes assigned idx (suc d) a h k e free =
    let (b, found) =
      probe-reaches fuel nodes assigned ((idx + 1) % length nodes) d a (omega arith)
        (mod-lt _ (omega arith))
        (ap (get_elem? nodes) (next_place idx d (length nodes) (omega arith)) ∙ e) free in
    let (c, here) = get_elem?_of_lt nodes idx k in
    elim (Bool-cases (contains assigned c)) [
      | inl taken ↦ (b, ground arith)
      | inr spare ↦ (c, ground arith)
    ]

-- While fewer nodes are assigned than there are, one round through the nodes finds a free one.
pub probe-total :
    (nodes assigned : List ℕ) (idx : ℕ)
    → IsDistinct nodes
    → length assigned < length nodes
    → idx < length nodes
    → (b : ℕ) × (probe (length nodes) nodes assigned idx ≡ some b)
probe-total nodes assigned idx dist h k =
    let (j, a, e, free) = some_free nodes assigned dist h in
    let n = length nodes in
    let lt : j < length nodes = get_elem?-lt nodes j e in
    probe-reaches n nodes assigned idx ((j + n - idx) % n) a (mod-lt _ (omega arith)) k
      (ap (get_elem? nodes) (place_ahead idx j n k lt) ∙ e) free

-- Where every active node is assigned the loop does not end: no fuel is enough.
pub probe-endless :
    (fuel : ℕ) (nodes assigned : List ℕ) (idx : ℕ)
    → All (λ z. contains assigned z ≡ true) nodes
    → probe fuel nodes assigned idx ≡ none
unfolding probe
probe-endless zero nodes assigned idx h = refl
probe-endless (suc fuel) nodes assigned idx h = elim (Option-cases (get_elem? nodes idx)) [
  | inl outside ↦ ground arith
  | inr (c, found) ↦ ground (
    arith,
    probe-endless fuel nodes assigned ((idx + 1) % length nodes) h,
    get_elem?-All (λ z. contains assigned z ≡ true) nodes idx h found,
  )
]
