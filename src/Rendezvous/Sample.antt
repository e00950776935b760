-- ===== src/Rendezvous/Sample.antt =====
-- A wire crate that takes the first archives of the snapshot.
use storage_node_interface_p.Prelude.{ℕ, zero, suc, ◌≡◌, refl, true, List, [], ◌∷◌, take, arith}
use storage_node_interface_p.Prelude.Eq.{nat_eq, contains}
use storage_node_interface_p.Rendezvous.{Wire, IsLawful, presorted_addresses}

abbrev pub first_wire : Wire
first_wire = record {
  wire_assigned_archives =
      λ root snapshot chunk replicas. take replicas (presorted_addresses snapshot);
  wire_assigned_archives_presorted = λ root presorted chunk replicas. take replicas presorted;
}

contains-take : (n : ℕ) (xs : List ℕ) (a : ℕ) → contains (take n xs) a ≡ true → contains xs a ≡ true
contains-take zero xs a h = absurd (cc)
contains-take (suc n) [] a h = h
contains-take (suc n) (x ∷ xs) a h = ground (arith, contains-take n xs a)

pub first_wire-IsLawful : IsLawful first_wire
first_wire-IsLawful = record {
  from_candidates = λ root presorted chunk replicas a h. contains-take replicas presorted a h;
  canonical = λ root snapshot chunk replicas. refl;
}
