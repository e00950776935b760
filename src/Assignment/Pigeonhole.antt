-- ===== src/Assignment/Pigeonhole.antt =====
-- Distinct nodes that all stand in a list are no more than its length.
use storage_node_interface_p.Prelude.{
  ℕ, zero, suc, ◌≤◌, ◌<◌, ◌≡◌, ◌≢◌, refl, true, false, ◌⊎◌, inl, inr, List, [], ◌∷◌, arith, length,
  get_elem?, some, nat_beq, if◌then◌else◌, Bool-cases, All,
}
use storage_node_interface_p.Prelude.Eq.{contains, IsDistinct, nat_eq}

-- Without the first `x`.
erase : ℕ → List ℕ → List ℕ
erase x [] = []
erase x (y ∷ ys) = if nat_beq y x then ys else y ∷ erase x ys

length-erase : (x : ℕ) (ys : List ℕ) → contains ys x ≡ true → suc (length (erase x ys)) ≡ length ys
unfolding erase
length-erase x [] h = cc
length-erase x (y ∷ ys) h = ground (arith, length-erase x ys)

contains-erase :
    (x z : ℕ) (ys : List ℕ) → x ≢ z → contains ys z ≡ true → contains (erase x ys) z ≡ true
unfolding erase
contains-erase x z [] ne h = h
contains-erase x z (y ∷ ys) ne h = ground (arith, contains-erase x z ys ne)

All-erase :
    (x : ℕ) (xs ys : List ℕ)
    → contains xs x ≡ false
    → All (λ z. contains ys z ≡ true) xs
    → All (λ z. contains (erase x ys) z ≡ true) xs
All-erase x [] ys n h = tt
All-erase x (z ∷ xs) ys n h =
    (contains-erase x z ys (ground arith) h.0, All-erase x xs ys (ground arith) h.1)

pub pigeonhole :
    (xs ys : List ℕ) → IsDistinct xs → All (λ z. contains ys z ≡ true) xs → length xs ≤ length ys
pigeonhole [] ys d h = omega arith
pigeonhole (x ∷ xs) ys d h =
    omega (arith, length-erase x ys h.0, pigeonhole xs (erase x ys) d.1 (All-erase x xs ys d.0 h.1))

-- Either all stand in `ys`, or one does not, and it has a place.
find_free :
    (xs ys : List ℕ)
    → All (λ z. contains ys z ≡ true) xs
      ⊎ ((j : ℕ) × (a : ℕ) × (get_elem? xs j ≡ some a) × (contains ys a ≡ false))
find_free [] ys = inl tt
find_free (x ∷ xs) ys = elim (Bool-cases (contains ys x)) [
  | inr free ↦ inr (zero, x, refl, free)
  | inl taken ↦ elim (find_free xs ys) [
    | inl all ↦ inl (taken, all)
    | inr (j, a, e, free) ↦ inr (suc j, a, e, free)
  ]
]

-- Among more distinct nodes than were assigned, one is free.
pub some_free :
    (xs ys : List ℕ)
    → IsDistinct xs
    → length ys < length xs
    → (j : ℕ) × (a : ℕ) × (get_elem? xs j ≡ some a) × (contains ys a ≡ false)
some_free xs ys d h = elim (find_free xs ys) [
  | inl all ↦ absurd (omega (arith, pigeonhole xs ys d all))
  | inr free ↦ free
]
