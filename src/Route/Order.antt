-- ===== src/Route/Order.antt =====
-- The archives that a chunk is asked of, over any asks.
use storage_node_interface_p.Prelude.{
  ℕ, zero, suc, ◌+◌, ◌≤◌, ◌<◌, ◌≡◌, refl, sym, ap, subst, ◌∙◌, Bool, Option, none, some, List, [],
  ◌∷◌, ◌++◌, length, get_elem?, take, nat_beq, if◌then◌else◌, Option-cases, Bool-cases, inl, inr,
  arith, some_eq,
}
use storage_node_interface_p.Prelude.Assoc.{Assoc, lookup}
use storage_node_interface_p.Prelude.Eq.{nat_eq}
use storage_node_interface_p.Attestor.{drop}
use storage_node_interface_p.Route.{
  first_identified, next_assigned_archive, pull_out, rotate, mark_archive_asked,
}

-- How often the archive stands in the list.
abbrev pub count : ℕ → List ℕ → ℕ
count z [] = 0
count z (x ∷ xs) = (if nat_beq x z then 1 else 0) + count z xs

-- A chunk's archives in the order they are asked, how many were asked, and which, in turn.
pub record Asking : Type 0 where
  pub order : List ℕ
  pub next : ℕ
  pub asked : List ℕ

-- The archive at the position is asked.
abbrev with_asked : List ℕ → Option ℕ → List ℕ
with_asked asked none = asked
with_asked asked (some a) = asked ++ (a ∷ [])

-- One ask, of the archive that is next, if one is.
unfoldable pub ask : Assoc ℕ ℕ → Bool → Asking → Asking
ask addr_to_peer skip_unresolved s =
    elim (next_assigned_archive s.order s.next addr_to_peer skip_unresolved) [
      | none ↦ s
      | some (pos, peer_id) ↦ record {
        order = (mark_archive_asked s.order s.next pos).0;
        next = (mark_archive_asked s.order s.next pos).1;
        asked = with_asked s.asked (get_elem? s.order pos);
      }
    ]

-- After asks with these archives identified, of which the first in the list is the latest.
unfoldable pub after_asks : List ℕ → List (Assoc ℕ ℕ × Bool) → Asking
after_asks ranking [] = record { order = ranking; next = 0; asked = [] }
after_asks ranking ((addr_to_peer, skip) ∷ earlier) =
    ask addr_to_peer skip (after_asks ranking earlier)

first_identified-found :
    (m : Assoc ℕ ℕ) (skip : Bool) (p : ℕ) (xs : List ℕ) (pos peer : ℕ)
    → first_identified m skip p xs ≡ some (pos, peer)
    → (k : ℕ) × (x : ℕ) × (pos ≡ p + k) × (get_elem? xs k ≡ some x)
unfolding first_identified
first_identified-found m skip p [] pos peer h = absurd (cc)
first_identified-found m skip p (x ∷ xs) pos peer h = elim (Option-cases (lookup x m)) [
  | inr (q, known) ↦
      let same : ◌≡◌ {A = ℕ × ℕ} (p, q) (pos, peer) = some_eq (ground (arith, h, known)) in
      let here : p ≡ pos = ap (λ (r : ℕ × ℕ). r.0) same in
      let there : pos ≡ p + 0 = omega (arith, here) in (0, x, there, refl)
  | inl nobody ↦ elim (Bool-cases skip) [
    | inr stop ↦ absurd (ground (arith, h, nobody, stop))
    | inl on ↦
        let (k, y, at, found) =
          first_identified-found m skip (p + 1) xs pos peer (ground (arith, h, nobody, on)) in
        (suc k, y, omega (arith, at), found)
  ]
]

get_elem?-drop : (n k : ℕ) (xs : List ℕ) → get_elem? (drop n xs) k ≡ get_elem? xs (n + k)
unfolding drop
get_elem?-drop zero k xs = ap (get_elem? xs) (let here : k ≡ 0 + k = omega arith in here)
get_elem?-drop (suc n) k [] = refl
get_elem?-drop (suc n) k (x ∷ xs) =
    get_elem?-drop n k xs
    ∙ ap (get_elem? (x ∷ xs)) (let here : suc (n + k) ≡ suc n + k = omega arith in here)

pull_out-get_elem? :
    (pos : ℕ) (xs : List ℕ) (x : ℕ)
    → get_elem? xs pos ≡ some x
    → (rest : List ℕ) × (pull_out pos xs ≡ some (x, rest))
      × ((z : ℕ) → count z (x ∷ rest) ≡ count z xs)
      × (length xs ≡ suc (length rest))
unfolding pull_out
pull_out-get_elem? pos [] x h = absurd (cc)
pull_out-get_elem? zero (y ∷ ys) x h = (ys, ground (arith, h), λ z. ground (arith, h), refl)
pull_out-get_elem? (suc pos) (y ∷ ys) x h =
    let (rest, out, counts, len) = pull_out-get_elem? pos ys x h in
    (y ∷ rest, ground (arith, out), λ z. omega (arith, counts z), ap suc len)

-- The rotated slice has the archive in front, and the same archives as before.
rotate-get_elem? :
    (next pos : ℕ) (order : List ℕ) (x : ℕ)
    → next ≤ pos
    → get_elem? order pos ≡ some x
    → (take (next + 1) (rotate next pos order) ≡ take next order ++ (x ∷ []))
      × ((z : ℕ) → count z (rotate next pos order) ≡ count z order)
      × (length (rotate next pos order) ≡ length order)
      × (next < length order)
unfolding rotate
rotate-get_elem? next pos [] x le h = absurd (cc)
rotate-get_elem? zero pos (y ∷ ys) x le h =
    let (rest, out, counts, len) = pull_out-get_elem? pos (y ∷ ys) x h in
    rw (rotate, out) (refl, counts, sym len, omega arith)
rotate-get_elem? (suc next) zero (y ∷ ys) x le h = absurd (omega arith)
rotate-get_elem? (suc next) (suc pos) (y ∷ ys) x le h =
    let (front, counts, len, lt) = rotate-get_elem? next pos ys x (omega arith) h in
    (
      ap (λ (n : ℕ). take n (y ∷ rotate next pos ys))
            (let there : suc next + 1 ≡ suc (next + 1) = omega arith in there)
          ∙ ap (λ (t : List ℕ). y ∷ t) front,
      λ z. omega (arith, counts z),
      ap suc len,
      omega (arith, lt),
    )

count-append : (z : ℕ) (xs ys : List ℕ) → count z (xs ++ ys) ≡ count z xs + count z ys
count-append z [] ys = omega arith
count-append z (x ∷ xs) ys = omega (arith, count-append z xs ys)

count-take : (z n : ℕ) (xs : List ℕ) → count z (take n xs) ≤ count z xs
count-take z zero xs = omega arith
count-take z (suc n) [] = omega arith
count-take z (suc n) (x ∷ xs) = omega (arith, count-take z n xs)

take-length : (xs : List ℕ) → take (length xs) xs ≡ xs
take-length [] = refl
take-length (x ∷ xs) = ap (λ (t : List ℕ). x ∷ t) (take-length xs)

abbrev Orders : List ℕ → Asking → Type 0
Orders ranking s =
    (s.asked ≡ take s.next s.order)
    × ((z : ℕ) → count z s.order ≡ count z ranking)
    × (length s.order ≡ length ranking)

next_assigned_archive-found :
    (order : List ℕ) (next : ℕ) (m : Assoc ℕ ℕ) (skip : Bool) (pos peer : ℕ)
    → next_assigned_archive order next m skip ≡ some (pos, peer)
    → (x : ℕ) × (next ≤ pos) × (get_elem? order pos ≡ some x)
unfolding next_assigned_archive
next_assigned_archive-found order next m skip pos peer e =
    let (k, x, at, found) = first_identified-found m skip next (drop next order) pos peer e in
    (x, omega (arith, at), ap (get_elem? order) at ∙ sym (get_elem?-drop next k order) ∙ found)

ask-Orders :
    (ranking : List ℕ) (m : Assoc ℕ ℕ) (skip : Bool) (s : Asking)
    → Orders ranking s
    → Orders ranking (ask m skip s)
unfolding ask mark_archive_asked
ask-Orders ranking m skip s (same, counts, len) =
    elim (Option-cases (next_assigned_archive s.order s.next m skip)) [
      | inl nobody ↦
          let stays : s ≡ ask m skip s = simp (ask, nobody) (refl) in
          subst (Orders ranking) stays (same, counts, len)
      | inr ((pos, peer), e) ↦
          let (x, le, here) = next_assigned_archive-found s.order s.next m skip pos peer e in
          let (front, turned, long, lt) = rotate-get_elem? s.next pos s.order x le here in
          let turned_to : Asking = record {
            order = rotate s.next pos s.order;
            next = s.next + 1;
            asked = s.asked ++ (x ∷ []);
          } in
          let moves : turned_to ≡ ask m skip s = simp (ask, e, here) (refl) in
          subst (Orders ranking) moves (
            ap (λ (t : List ℕ). t ++ (x ∷ [])) same ∙ sym front,
            λ z. turned z ∙ counts z,
            long ∙ len,
          )
    ]

after_asks-Orders :
    (ranking : List ℕ) (asks : List (Assoc ℕ ℕ × Bool)) → Orders ranking (after_asks ranking asks)
unfolding after_asks
after_asks-Orders ranking [] = (refl, λ z. refl, refl)
after_asks-Orders ranking ((m, skip) ∷ earlier) =
    ask-Orders ranking m skip (after_asks ranking earlier) (after_asks-Orders ranking earlier)

-- After any asks for a chunk, with any archives identified, each archive was asked no more often
-- than it stands in the chunk's ranking; and when as many were asked as the ranking has, each was
-- asked as often as it stands there.
pub after_asks-count :
    (ranking : List ℕ) (asks : List (Assoc ℕ ℕ × Bool)) (z : ℕ)
    → (count z (after_asks ranking asks).asked ≤ count z ranking)
      × ((after_asks ranking asks).next ≡ length ranking
          → count z (after_asks ranking asks).asked ≡ count z ranking)
after_asks-count ranking asks z =
    let s = after_asks ranking asks in
    let (same, counts, len) = after_asks-Orders ranking asks in
    (
      subst (λ (xs : List ℕ). count z xs ≤ count z ranking) (sym same)
          (omega (arith, count-take z s.next s.order, counts z)),
      λ all.
          ap (count z) (same ∙ ap (λ (n : ℕ). take n s.order) (all ∙ sym len) ∙ take-length s.order)
          ∙ counts z,
    )
