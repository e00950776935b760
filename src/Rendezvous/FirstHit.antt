-- ===== src/Rendezvous/FirstHit.antt =====
-- The scan for the first chunk that some target is assigned to.
use storage_node_interface_p.Prelude.{
  ℕ, zero, suc, ◌+◌, ◌≤◌, ◌<◌, ◌≡◌, refl, sym, ap, ◌∙◌, Bool, true, false, inl, inr, Option, none,
  some, List, [], ◌∷◌, arith, length, nat_beq, filter_by, find_by, Option-cases, Bool-cases,
  nat_beq_iff,
}
use storage_node_interface_p.Prelude.Eq.{contains, nat_eq}
use storage_node_interface_p.Merkle.{Bytes}
use storage_node_interface_p.Rendezvous.{
  Wire, IsLawful, presorted_addresses, assigned_archives, scan_chunks, first_chunk_assigned_to_any,
}
use storage_node_interface_p.Rendezvous.Sets.{contains-filter_by}

find_by-none :
    (p : ℕ → Bool) (xs : List ℕ) (z : ℕ) → find_by p xs ≡ none → p z ≡ true → contains xs z ≡ false
find_by-none p [] z e h = refl
find_by-none p (x ∷ xs) z e h = elim (Bool-cases (nat_beq x z)) [
  | inl hit ↦ let same = ap p ((nat_beq_iff x z).0 hit) in absurd (ground arith)
  | inr miss ↦ ground (arith, find_by-none p xs z)
]

-- Dropping the targets outside the candidates changes nothing.
find_by-wanted :
    (candidates targets xs : List ℕ)
    → ((z : ℕ) → contains xs z ≡ true → contains candidates z ≡ true)
    → find_by (contains (filter_by (contains candidates) targets)) xs
      ≡ find_by (contains targets) xs
find_by-wanted candidates targets [] h = refl
find_by-wanted candidates targets (x ∷ xs) h = ground (
  arith,
  contains-filter_by (contains candidates) targets x,
  h x,
  nat_beq_iff x x,
  find_by-wanted candidates targets xs (λ z e. h z (ground arith)),
)

-- What the scan says of the chunks `from ≤ c < to`, where `find` finds a chunk's first target.
abbrev pub Scanned : (ℕ → Option ℕ) → ℕ → ℕ → Option (ℕ × ℕ) → Type 0
Scanned find from to none = (c : ℕ) → from ≤ c → c < to → find c ≡ none
Scanned find from to (some (c, t)) =
    (from ≤ c) × (c < to) × (find c ≡ some t) × ((d : ℕ) → from ≤ d → d < c → find d ≡ none)

Scanned-miss :
    (find : ℕ → Option ℕ) (i to : ℕ) (r : Option (ℕ × ℕ))
    → find i ≡ none
    → Scanned find (i + 1) to r
    → Scanned find i to r
Scanned-miss find i to none miss s = λ c h k. elim (Bool-cases (nat_beq c i)) [
  | inl here ↦ ap find ((nat_beq_iff c i).0 here) ∙ miss
  | inr on ↦ s c (ground arith) k
]
Scanned-miss find i to (some (c, t)) miss s = (
  omega arith,
  s.1,
  s.2,
  λ d h k. elim (Bool-cases (nat_beq d i)) [
    | inl here ↦ ap find ((nat_beq_iff d i).0 here) ∙ miss
    | inr on ↦ s.3 d (ground arith) k
  ],
)

find_by-nobody : (wanted xs : List ℕ) → length wanted ≡ 0 → find_by (contains wanted) xs ≡ none
find_by-nobody [] [] h = refl
find_by-nobody [] (x ∷ xs) h = find_by-nobody [] xs h
find_by-nobody (w ∷ ws) xs h = absurd (omega arith)

module _ (wire : Wire) (root : Bytes) (lawful : IsLawful wire) where
  abbrev hit : List ℕ → ℕ → List ℕ → ℕ → Option ℕ
  hit snapshot rf targets c = find_by (contains targets) (assigned_archives wire root snapshot c rf)

  presorted-hit :
      (snapshot : List ℕ) (rf : ℕ) (targets : List ℕ) (c : ℕ)
      → find_by
          (contains (filter_by (contains (presorted_addresses snapshot)) targets))
          (wire.wire_assigned_archives_presorted root (presorted_addresses snapshot) c rf)
        ≡ hit snapshot rf targets c
  unfolding assigned_archives
  presorted-hit snapshot rf targets c = rw (lawful.canonical root snapshot c rf) (
      find_by-wanted (presorted_addresses snapshot) targets _
        (λ z. lawful.from_candidates root (presorted_addresses snapshot) c rf z))

  scan_chunks-Scanned :
      (snapshot : List ℕ) (rf : ℕ) (targets : List ℕ) (left i to : ℕ)
      → i + left ≡ to
      → Scanned (hit snapshot rf targets) i to (
          scan_chunks wire root
            (presorted_addresses snapshot)
            rf
            (filter_by (contains (presorted_addresses snapshot)) targets)
            left
            i)
  unfolding scan_chunks
  scan_chunks-Scanned snapshot rf targets zero i to e = λ c h k. absurd (omega arith)
  scan_chunks-Scanned snapshot rf targets (suc left) i to e =
      rw (presorted-hit snapshot rf targets i, scan_chunks)
        (elim (Option-cases (hit snapshot rf targets i)) [
          | inl miss ↦ rw miss (
              Scanned-miss (hit snapshot rf targets) i to _ miss
                (scan_chunks-Scanned snapshot rf targets left (i + 1) to (omega arith)))
          | inr (t, found) ↦
              rw found (omega arith, omega arith, found, λ d h k. absurd (omega arith))
        ])

  -- Over a lawful wire crate, `first_chunk_assigned_to_any` finds the first chunk below the count
  -- that a target is assigned to with the first such target in the assignment's order, and none
  -- exactly when no chunk has one.
  pub first_chunk_assigned_to_any-Scanned :
      (chunk_count : ℕ) (snapshot : List ℕ) (replication_factor : ℕ) (targets : List ℕ)
      → Scanned
          (λ c.
            find_by (contains targets) (assigned_archives wire root snapshot c replication_factor))
          0
          chunk_count
          (first_chunk_assigned_to_any wire root chunk_count snapshot replication_factor targets)
  unfolding first_chunk_assigned_to_any
  first_chunk_assigned_to_any-Scanned count snapshot rf targets =
      let wanted = filter_by (contains (presorted_addresses snapshot)) targets in
      elim (Bool-cases (nat_beq (length wanted) 0)) [
        | inl nobody ↦ rw nobody (λ c h k.
            sym (presorted-hit snapshot rf targets c)
            ∙ find_by-nobody wanted _ ((nat_beq_iff (length wanted) 0).0 nobody))
        | inr somebody ↦
            rw somebody (scan_chunks-Scanned snapshot rf targets count 0 count (omega arith))
      ]

  -- So where it finds none, no target holds a chunk of the file.
  pub first_chunk_assigned_to_any-none :
      (chunk_count : ℕ) (snapshot : List ℕ) (replication_factor : ℕ) (targets : List ℕ)
      (chunk_index target : ℕ)
      → first_chunk_assigned_to_any wire root chunk_count snapshot replication_factor targets ≡ none
      → chunk_index < chunk_count
      → contains targets target ≡ true
      → contains (assigned_archives wire root snapshot chunk_index replication_factor) target
        ≡ false
  first_chunk_assigned_to_any-none count snapshot rf targets c t e h k =
      find_by-none (contains targets) _ t
        ((rw e at (first_chunk_assigned_to_any-Scanned count snapshot rf targets)) c (omega arith)
          h)
        k
