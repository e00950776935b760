-- ===== src/Assignment/Replicas.antt =====
-- What the two loops hand out.
use native.Mathlib.Nat.{mod-lt}
use storage_node_interface_p.Prelude.{
  ℕ, zero, suc, ◌+◌, ◌≤◌, ◌<◌, ◌≡◌, refl, subst, some_eq, nat_beq_iff, min, true, false, none, some,
  ◌||◌, List, [], ◌∷◌, ◌++◌, arith, length, All, All-append, length-append, nat_beq, Option-cases,
  Bool-cases, All-imp, length-replicate, inl, inr, replicate,
}
use storage_node_interface_p.Prelude.Eq.{contains, IsDistinct, nat_eq}
use storage_node_interface_p.Merkle.{Bytes}
use storage_node_interface_p.Assignment.{
  probe, start_index, assign_replicas, assign_chunks, compute_chunk_assignment,
}
use storage_node_interface_p.Assignment.Probe.{probe-free, probe-total}
use storage_node_interface_p.Assignment.Pigeonhole.{pigeonhole}

contains-push :
    (xs : List ℕ) (a z : ℕ)
    → contains xs z ≡ false
    → nat_beq a z ≡ false
    → contains (xs ++ (a ∷ [])) z ≡ false
contains-push [] a z h k = ground arith
contains-push (x ∷ xs) a z h k = ground (arith, contains-push xs a z)

push-IsDistinct :
    (xs : List ℕ) (a : ℕ) → IsDistinct xs → contains xs a ≡ false → IsDistinct (xs ++ (a ∷ []))
push-IsDistinct [] a d h = (refl, tt)
push-IsDistinct (x ∷ xs) a d h =
    (contains-push xs a x d.0 (ground arith), push-IsDistinct xs a d.1 (ground arith))

-- So many different nodes, all of them active.
pub record IsReplicaSet (active_nodes : List ℕ) (count : ℕ) (assigned : List ℕ) : Type 0 where
  pub counted : length assigned ≡ count
  pub distinct : IsDistinct assigned
  pub active : All (λ z. contains active_nodes z ≡ true) assigned

push-IsReplicaSet :
    (nodes : List ℕ) (r : ℕ) (assigned : List ℕ) (a : ℕ)
    → IsReplicaSet nodes r assigned
    → contains assigned a ≡ false
    → contains nodes a ≡ true
    → IsReplicaSet nodes (r + 1) (assigned ++ (a ∷ []))
push-IsReplicaSet nodes r assigned a v free act = record {
  counted = omega (arith, length-append assigned (a ∷ []), v.counted);
  distinct = push-IsDistinct assigned a v.distinct free;
  active = All-append (λ z. contains nodes z ≡ true) assigned (a ∷ []) v.active (act, tt);
}

module _ (blake3 : Bytes → Bytes) (fuel : ℕ) (root : Bytes) (nodes : List ℕ) where
  -- Whatever the inner loop returns is a replica set of the size asked for.
  assign_replicas_sound :
      (left r chunk : ℕ) (assigned result : List ℕ)
      → IsReplicaSet nodes r assigned
      → assign_replicas blake3 fuel root nodes left r chunk assigned ≡ some result
      → IsReplicaSet nodes (r + left) result
  unfolding assign_replicas
  assign_replicas_sound zero r chunk assigned result v e =
      subst (λ (k : ℕ). IsReplicaSet nodes k result) (let sum : r ≡ r + 0 = omega arith in sum)
        (subst (IsReplicaSet nodes r) (some_eq e) v)
  assign_replicas_sound (suc left) r chunk assigned result v e =
      let start = start_index blake3 root chunk r (length nodes) in
      elim (Option-cases (probe fuel nodes assigned start)) [
        | inl stuck ↦ absurd (ground arith)
        | inr (a, found) ↦
            let (free, act) = probe-free fuel nodes assigned start a found in
            let rest =
              assign_replicas_sound left (r + 1) chunk (assigned ++ (a ∷ [])) result
                (push-IsReplicaSet nodes r assigned a v free act) (ground arith) in
            subst (λ (k : ℕ). IsReplicaSet nodes k result)
              (let sum : r + 1 + left ≡ r + suc left = omega arith in sum) rest
      ]

start_index-lt :
    (blake3 : Bytes → Bytes) (root : Bytes) (chunk r n : ℕ)
    → 0 < n
    → start_index blake3 root chunk r n < n
unfolding start_index
start_index-lt blake3 root chunk r n h = mod-lt _ h

module _ (blake3 : Bytes → Bytes) (root : Bytes) (nodes : List ℕ) where
  assign_replicas-total :
      (left r chunk : ℕ) (assigned : List ℕ)
      → IsDistinct nodes
      → length assigned ≡ r
      → r + left ≤ length nodes
      → (result : List ℕ) × (assign_replicas blake3 (length nodes) root nodes left r chunk assigned
          ≡ some result)
  unfolding assign_replicas
  assign_replicas-total zero r chunk assigned d l h = (assigned, refl)
  assign_replicas-total (suc left) r chunk assigned d l h =
      let start = start_index blake3 root chunk r (length nodes) in
      let (a, found) =
        probe-total nodes assigned start d (omega arith)
          (start_index-lt blake3 root chunk r (length nodes) (omega arith)) in
      let (result, rest) =
        assign_replicas-total left (r + 1) chunk (assigned ++ (a ∷ [])) d
          (omega (arith, length-append assigned (a ∷ []))) (omega arith) in
      (result, ground arith)

  assign_chunks-total :
      (left chunk replicas : ℕ)
      → IsDistinct nodes
      → replicas ≤ length nodes
      → (result : List (List ℕ)) × (assign_chunks blake3
            (length nodes)
            root
            nodes
            left
            chunk
            replicas
          ≡ some result)
        × (length result ≡ left)
        × All (IsReplicaSet nodes replicas) result
  unfolding assign_chunks
  assign_chunks-total zero chunk replicas d h = ([], refl, refl, tt)
  assign_chunks-total (suc left) chunk replicas d h =
      let (assigned, made) = assign_replicas-total replicas 0 chunk [] d refl (omega arith) in
      let (rest, later, len, each) = assign_chunks-total left (chunk + 1) replicas d h in
      let set =
        assign_replicas_sound blake3 (length nodes) root nodes replicas 0 chunk [] assigned
          (record { counted = refl; distinct = tt; active = tt }) made in
      (
        assigned ∷ rest,
        ground arith,
        omega arith,
        (
          subst (λ (k : ℕ). IsReplicaSet nodes k assigned)
              (let sum : 0 + replicas ≡ replicas = omega arith in sum) set,
          each,
        ),
      )

  replicate-IsReplicaSet : (count : ℕ) → All (IsReplicaSet nodes 0) (replicate count [])
  replicate-IsReplicaSet zero = tt
  replicate-IsReplicaSet (suc count) =
      (record { counted = refl; distinct = tt; active = tt }, replicate-IsReplicaSet count)

  idle-IsReplicaSet :
      (count rf : ℕ)
      → (nat_beq (length nodes) 0 || nat_beq count 0) ≡ true
      → All (IsReplicaSet nodes (min rf (length nodes))) (replicate count [])
  idle-IsReplicaSet zero rf h = tt
  idle-IsReplicaSet (suc count) rf h =
      let none_asked : length nodes ≡ 0 = ground arith in
      subst (λ (k : ℕ). All (IsReplicaSet nodes k) (replicate (suc count) []))
        (let nil : 0 ≡ min rf (length nodes) = omega arith in nil)
        (replicate-IsReplicaSet (suc count))

  -- With distinct active nodes and one round of probing as fuel, `compute_chunk_assignment`
  -- returns, for every chunk, the lesser of the replication factor and the number of active nodes,
  -- of different active nodes.
  pub compute_chunk_assignment-total :
      (chunk_count replication_factor : ℕ)
      → IsDistinct nodes
      → (result : List (List ℕ)) × (compute_chunk_assignment blake3
            (length nodes)
            root
            nodes
            chunk_count
            replication_factor
          ≡ some result)
        × (length result ≡ chunk_count)
        × All (IsReplicaSet nodes (min replication_factor (length nodes))) result
  unfolding compute_chunk_assignment
  compute_chunk_assignment-total count rf d =
      elim (Bool-cases (nat_beq (length nodes) 0 || nat_beq count 0)) [
        | inl idle ↦
            rw idle
              (replicate count [], refl, length-replicate count [], idle-IsReplicaSet count rf idle)
        | inr busy ↦ rw busy (assign_chunks-total count 0 (min rf (length nodes)) d (omega arith))
      ]

contains-All : (P : ℕ → Type 0) (xs : List ℕ) (z : ℕ) → All P xs → contains xs z ≡ true → P z
contains-All P [] z h e = absurd (cc)
contains-All P (x ∷ xs) z h e = elim (Bool-cases (nat_beq x z)) [
  | inl hit ↦ subst P ((nat_beq_iff x z).0 hit) h.0
  | inr miss ↦ contains-All P xs z h.1 (ground arith)
]

assign_replicas-endless :
    (blake3 : Bytes → Bytes) (fuel : ℕ) (root : Bytes) (nodes addresses : List ℕ)
    (replicas chunk : ℕ)
    → All (λ z. contains addresses z ≡ true) nodes
    → length addresses < replicas
    → assign_replicas blake3 fuel root nodes replicas 0 chunk [] ≡ none
assign_replicas-endless blake3 fuel root nodes addresses replicas chunk h k =
    elim (Option-cases (assign_replicas blake3 fuel root nodes replicas 0 chunk [])) [
      | inl stuck ↦ stuck
      | inr (result, made) ↦
          let set =
            assign_replicas_sound blake3 fuel root nodes replicas 0 chunk [] result
              (record { counted = refl; distinct = tt; active = tt }) made in
          let few = pigeonhole result addresses set.distinct (
            All-imp (λ z m. contains-All (λ y. contains addresses y ≡ true) nodes z h m) result
              set.active) in
          absurd (omega (arith, set.counted, few))
    ]

assign_chunks-none :
    (blake3 : Bytes → Bytes) (fuel : ℕ) (root : Bytes) (nodes : List ℕ) (left chunk replicas : ℕ)
    → assign_replicas blake3 fuel root nodes replicas 0 chunk [] ≡ none
    → assign_chunks blake3 fuel root nodes (suc left) chunk replicas ≡ none
unfolding assign_chunks
assign_chunks-none blake3 fuel root nodes left chunk replicas e = ground arith

-- When every active node is one of fewer addresses than the replicas asked for, and there is a
-- chunk, no fuel lets `compute_chunk_assignment` return.
pub compute_chunk_assignment-endless :
    (blake3 : Bytes → Bytes) (fuel : ℕ) (root : Bytes) (nodes addresses : List ℕ)
    (chunk_count replication_factor : ℕ)
    → All (λ z. contains addresses z ≡ true) nodes
    → length addresses < min replication_factor (length nodes)
    → 0 < chunk_count
    → compute_chunk_assignment blake3 fuel root nodes chunk_count replication_factor ≡ none
unfolding compute_chunk_assignment
compute_chunk_assignment-endless blake3 fuel root nodes addresses zero rf h k c =
    absurd (omega arith)
compute_chunk_assignment-endless blake3 fuel root nodes addresses (suc count) rf h k c = ground (
  arith,
  assign_replicas-endless blake3 fuel root nodes addresses (min rf (length nodes)) 0 h k,
  assign_chunks-none blake3 fuel root nodes count 0 (min rf (length nodes)),
)
