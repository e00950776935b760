-- ===== src/Rendezvous/Snapshot.antt =====
-- A snapshot in canonical form: strictly ascending, with the members of the snapshot, and so the
-- same for every order and multiplicity in which they come.
use storage_node_interface_p.Prelude.{
  ℕ, ◌+◌, ◌≤◌, ◌<◌, ◌≡◌, refl, sym, ap₂, ◌∙◌, false, ◌||◌, List, [], ◌∷◌, arith, nat_beq,
}
use storage_node_interface_p.Prelude.Eq.{contains, nat_eq}
use storage_node_interface_p.Rendezvous.{insert_sorted, sort, dedup, presorted_addresses}

-- Every element is at least `b`, in ascending order.
abbrev pub IsAscending : ℕ → List ℕ → Type 0
IsAscending b [] = Unit {0}
IsAscending b (x ∷ xs) = (b ≤ x) × IsAscending x xs

abbrev pub IsStrict : ℕ → List ℕ → Type 0
IsStrict b [] = Unit {0}
IsStrict b (x ∷ xs) = (b ≤ x) × IsStrict (x + 1) xs

pub contains-insert_sorted :
    (a z : ℕ) (xs : List ℕ) → contains (insert_sorted a xs) z ≡ (nat_beq a z || contains xs z)
unfolding insert_sorted
contains-insert_sorted a z [] = refl
contains-insert_sorted a z (x ∷ xs) = ground (arith, contains-insert_sorted a z xs)

contains-sort : (z : ℕ) (xs : List ℕ) → contains (sort xs) z ≡ contains xs z
unfolding sort
contains-sort z [] = refl
contains-sort z (x ∷ xs) = ground (arith, contains-insert_sorted x z (sort xs), contains-sort z xs)

contains-dedup : (z : ℕ) (xs : List ℕ) → contains (dedup xs) z ≡ contains xs z
unfolding dedup
contains-dedup z [] = refl
contains-dedup z (x ∷ []) = refl
contains-dedup z (x ∷ y ∷ ys) = ground (arith, contains-dedup z (y ∷ ys))

insert_sorted-IsAscending :
    (b a : ℕ) (xs : List ℕ) → b ≤ a → IsAscending b xs → IsAscending b (insert_sorted a xs)
unfolding insert_sorted
insert_sorted-IsAscending b a [] h s = (h, tt)
insert_sorted-IsAscending b a (x ∷ xs) h s = ground (arith, insert_sorted-IsAscending x a xs)

sort-IsAscending : (xs : List ℕ) → IsAscending 0 (sort xs)
unfolding sort
sort-IsAscending [] = tt
sort-IsAscending (x ∷ xs) =
    insert_sorted-IsAscending 0 x (sort xs) (omega arith) (sort-IsAscending xs)

dedup-IsStrict : (b : ℕ) (xs : List ℕ) → IsAscending b xs → IsStrict b (dedup xs)
unfolding dedup
dedup-IsStrict b [] s = tt
dedup-IsStrict b (x ∷ []) s = (s.0, tt)
dedup-IsStrict b (x ∷ y ∷ ys) s =
    ground (arith, dedup-IsStrict b (y ∷ ys), dedup-IsStrict (x + 1) (y ∷ ys))

pub contains-presorted_addresses :
    (z : ℕ) (snapshot : List ℕ) → contains (presorted_addresses snapshot) z ≡ contains snapshot z
unfolding presorted_addresses
contains-presorted_addresses z snapshot =
    contains-dedup z (sort snapshot) ∙ contains-sort z snapshot

pub presorted_addresses-IsStrict : (snapshot : List ℕ) → IsStrict 0 (presorted_addresses snapshot)
unfolding presorted_addresses
presorted_addresses-IsStrict snapshot = dedup-IsStrict 0 (sort snapshot) (sort-IsAscending snapshot)

below_strict : (b z : ℕ) (xs : List ℕ) → IsStrict b xs → z < b → contains xs z ≡ false
below_strict b z [] s h = refl
below_strict b z (x ∷ xs) s h = ground (arith, below_strict (x + 1) z xs s.1)

-- A strictly ascending list is determined by its members.
strict-ext :
    (b c : ℕ) (xs ys : List ℕ)
    → IsStrict b xs
    → IsStrict c ys
    → ((z : ℕ) → contains xs z ≡ contains ys z)
    → xs ≡ ys
strict-ext b c [] [] s t h = refl
strict-ext b c [] (y ∷ ys) s t h = ground (arith, h y)
strict-ext b c (x ∷ xs) [] s t h = ground (arith, h x)
strict-ext b c (x ∷ xs) (y ∷ ys) s t h =
    let same : x ≡ y =
      ground (arith, h x, h y, below_strict (x + 1) y xs s.1, below_strict (y + 1) x ys t.1) in
    ap₂ ◌∷◌ same (
      strict-ext (x + 1) (y + 1) xs ys s.1 t.1
        λ z. ground (arith, h z, below_strict (x + 1) z xs s.1, below_strict (y + 1) z ys t.1))

-- Two snapshots that hold the same addresses, in any order and with any repeats, have the same
-- canonical form.
pub presorted_addresses-ext :
    (s t : List ℕ)
    → ((z : ℕ) → contains s z ≡ contains t z)
    → presorted_addresses s ≡ presorted_addresses t
presorted_addresses-ext s t h =
    strict-ext 0 0 _ _ (presorted_addresses-IsStrict s) (presorted_addresses-IsStrict t)
      λ z. contains-presorted_addresses z s ∙ h z ∙ sym (contains-presorted_addresses z t)
