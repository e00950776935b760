-- ===== src/Attestor/Cuts.antt =====
-- A slice cut into chunks: what `slice::chunks` gives for a cap above zero.
use storage_node_interface_p.Prelude.{
  ℕ, zero, suc, ◌-◌, ◌≤◌, ◌<◌, ◌≡◌, refl, ap, ◌∙◌, some, List, [], ◌∷◌, ◌++◌, length, take, All,
  arith,
}
use storage_node_interface_p.Attestor.{drop, chunks_up_to, chunks}

module _ {ℓ} {A : Type ℓ} where
  abbrev pub flat : List (List A) → List A
  flat [] = []
  flat (xs ∷ xss) = xs ++ flat xss

  take-drop : (n : ℕ) (xs : List A) → take n xs ++ drop n xs ≡ xs
  unfolding drop
  take-drop zero xs = refl
  take-drop (suc n) [] = refl
  take-drop (suc n) (x ∷ xs) = ap (λ (t : List A). x ∷ t) (take-drop n xs)

  length-drop : (n : ℕ) (xs : List A) → length (drop n xs) ≡ length xs - n
  unfolding drop
  length-drop zero xs = omega arith
  length-drop (suc n) [] = omega arith
  length-drop (suc n) (x ∷ xs) = omega (arith, length-drop n xs)

  length-take : (n : ℕ) (xs : List A) → length (take n xs) ≤ n
  length-take zero xs = omega arith
  length-take (suc n) [] = omega arith
  length-take (suc n) (x ∷ xs) = omega (arith, length-take n xs)

  take_pos : (n : ℕ) (x : A) (xs : List A) → 0 < n → 0 < length (take n (x ∷ xs))
  take_pos zero x xs h = absurd (omega arith)
  take_pos (suc n) x xs h = omega arith

  -- Not empty, and within the cap.
  abbrev pub FitsCap : ℕ → List A → Type 0
  FitsCap cap xs = (0 < length xs) × (length xs ≤ cap)

  flat-chunks_up_to :
      (left cap : ℕ) (xs : List A)
      → 0 < cap
      → length xs ≤ left
      → flat (chunks_up_to left cap xs) ≡ xs
  unfolding chunks_up_to
  flat-chunks_up_to zero cap [] p h = refl
  flat-chunks_up_to zero cap (x ∷ xs) p h = absurd (omega arith)
  flat-chunks_up_to (suc left) cap [] p h = refl
  flat-chunks_up_to (suc left) cap (x ∷ xs) p h =
      ap (λ t. take cap (x ∷ xs) ++ t)
        (flat-chunks_up_to left cap (drop cap (x ∷ xs)) p (omega (arith, length-drop cap (x ∷ xs))))
      ∙ take-drop cap (x ∷ xs)

  chunks_up_to-FitsCap :
      (left cap : ℕ) (xs : List A) → 0 < cap → All (FitsCap cap) (chunks_up_to left cap xs)
  unfolding chunks_up_to
  chunks_up_to-FitsCap zero cap xs p = tt
  chunks_up_to-FitsCap (suc left) cap [] p = tt
  chunks_up_to-FitsCap (suc left) cap (x ∷ xs) p = (
    (take_pos cap x xs p, length-take cap (x ∷ xs)),
    chunks_up_to-FitsCap left cap (drop cap (x ∷ xs)) p,
  )

  -- With a cap above zero a slice is cut into pieces that are not empty, are within the cap, and
  -- make it up.
  pub chunks-cuts :
      (cap : ℕ) (xs : List A)
      → 0 < cap
      → (plan : List (List A)) × (chunks cap xs ≡ some plan)
        × (flat plan ≡ xs)
        × All (FitsCap cap) plan
  unfolding chunks
  chunks-cuts cap xs p = (
    chunks_up_to (length xs) cap xs,
    ground arith,
    flat-chunks_up_to (length xs) cap xs p (omega arith),
    chunks_up_to-FitsCap (length xs) cap xs p,
  )

  pub flat-nil :
      (cap : ℕ) (plan : List (List A)) → All (FitsCap cap) plan → flat plan ≡ [] → plan ≡ []
  flat-nil cap [] fits e = refl
  flat-nil cap ([] ∷ plan) fits e = absurd (omega (arith, fits.0.0))
  flat-nil cap ((x ∷ xs) ∷ plan) fits e = absurd (cc)
