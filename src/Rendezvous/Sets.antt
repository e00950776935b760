-- ===== src/Rendezvous/Sets.antt =====
-- The batch functions against the assignment of a single chunk.
use storage_node_interface_p.Prelude.{
  ℕ, zero, suc, ◌+◌, ◌<◌, ◌≡◌, refl, sym, ap, ◌∙◌, Bool, ◌&&◌, inl, inr, some, List, [], ◌∷◌, map,
  arith, length, get_elem?, ltb, leb, nat_beq, range_from, filter_by, Bool-cases, length-map,
  length-range_from, nat_beq_iff,
}
use storage_node_interface_p.Prelude.Eq.{contains, nat_eq}
use storage_node_interface_p.Merkle.{Bytes}
use storage_node_interface_p.Rendezvous.{
  Wire, IsLawful, presorted_addresses, assigned_archives, compute_assignment_v2,
  chunks_for_archive_v2,
}

pub contains-filter_by :
    (p : ℕ → Bool) (xs : List ℕ) (z : ℕ) → contains (filter_by p xs) z ≡ (contains xs z && p z)
contains-filter_by p [] z = refl
contains-filter_by p (x ∷ xs) z = elim (Bool-cases (nat_beq x z)) [
  | inl hit ↦
      let same = (nat_beq_iff x z).0 hit in ground (arith, contains-filter_by p xs z, ap p same)
  | inr miss ↦ ground (arith, contains-filter_by p xs z)
]

contains-range_from : (i n c : ℕ) → contains (range_from i n) c ≡ (leb i c && ltb c (i + n))
contains-range_from i zero c = ground arith
contains-range_from i (suc n) c = ground (arith, contains-range_from (i + 1) n c)

get_elem?-map-range_from :
    (f : ℕ → List ℕ) (i n c : ℕ) → c < n → get_elem? (map f (range_from i n)) c ≡ some (f (i + c))
get_elem?-map-range_from f i zero c h = absurd (omega arith)
get_elem?-map-range_from f i (suc n) zero h =
    ap (λ (k : ℕ). some (f k)) (let here : i ≡ i + 0 = omega arith in here)
get_elem?-map-range_from f i (suc n) (suc c) h =
    get_elem?-map-range_from f (i + 1) n c (omega arith)
    ∙ ap (λ (k : ℕ). some (f k)) (let there : i + 1 + c ≡ i + suc c = omega arith in there)

module _ (wire : Wire) (root : Bytes) (lawful : IsLawful wire) where
  -- Over a lawful wire crate, `compute_assignment_v2` has one entry for each chunk, and the entry
  -- of a chunk below the count is its `assigned_archives`.
  pub compute_assignment_v2-assigned_archives :
      (chunk_count : ℕ) (snapshot : List ℕ) (replication_factor chunk_index : ℕ)
      → chunk_index < chunk_count
      → (length (compute_assignment_v2 wire root chunk_count snapshot replication_factor)
          ≡ chunk_count)
        × (get_elem?
              (compute_assignment_v2 wire root chunk_count snapshot replication_factor)
              chunk_index
            ≡ some (assigned_archives wire root snapshot chunk_index replication_factor))
  unfolding compute_assignment_v2 assigned_archives
  compute_assignment_v2-assigned_archives count snapshot rf c h = (
    length-map _ (range_from 0 count) ∙ length-range_from 0 count,
    get_elem?-map-range_from _ 0 count c h
        ∙ ap (λ (k : ℕ). some (presorted_set k)) (let whole : 0 + c ≡ c = omega arith in whole)
        ∙ ap some (sym (lawful.canonical root snapshot c rf)),
  )
    where
      presorted_set : ℕ → List ℕ
      presorted_set k =
          wire.wire_assigned_archives_presorted root (presorted_addresses snapshot) k rf

  -- Over a lawful wire crate, `chunks_for_archive_v2` holds a chunk exactly when it is below the
  -- count and `assigned_archives` of that chunk holds the archive.
  pub chunks_for_archive_v2-assigned_archives :
      (chunk_count : ℕ) (snapshot : List ℕ) (replication_factor archive chunk_index : ℕ)
      → contains
          (chunks_for_archive_v2 wire root chunk_count snapshot replication_factor archive)
          chunk_index
        ≡ (ltb chunk_index chunk_count
            && contains
                (assigned_archives wire root snapshot chunk_index replication_factor)
                archive)
  unfolding chunks_for_archive_v2 assigned_archives
  chunks_for_archive_v2-assigned_archives count snapshot rf archive c =
      let set = wire.wire_assigned_archives_presorted root (presorted_addresses snapshot) in
      rw (lawful.canonical root snapshot c rf) (
        ground (
          arith,
          contains-filter_by (λ k. contains (set k rf) archive) (range_from 0 count) c,
          contains-range_from 0 count c,
          lawful.from_candidates root (presorted_addresses snapshot) c rf archive,
        ))
