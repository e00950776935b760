-- ===== src/Verify/Depth.antt =====
-- `expected_proof_depth`: one more for each halving of the leaf count, rounded up.
use native.Mathlib.Nat.{pow-suc}
use storage_node_interface_p.Prelude.{ℕ, zero, suc, ◌+◌, ◌-◌, ◌/◌, ◌^◌, ◌≤◌, ◌<◌, ◌≡◌, refl, arith}
use storage_node_interface_p.Verify.{leading_zeros, expected_proof_depth}

leading_zeros-le : (w m : ℕ) → leading_zeros w m ≤ w
unfolding leading_zeros
leading_zeros-le zero m = omega arith
leading_zeros-le (suc w) m = ground (arith, leading_zeros-le w m)

-- Dropping the lowest bit of a positive number keeps the zeros above it.
leading_zeros-half : (w m : ℕ) → 0 < m → leading_zeros (suc w) m ≡ leading_zeros w (m / 2)
unfolding leading_zeros
leading_zeros-half zero m h = ground arith
leading_zeros-half (suc w) m h = ground (arith, leading_zeros-half w m h, pow-suc 2 w)

-- A number that fits in one bit less has one zero more.
leading_zeros-suc : (w m : ℕ) → m < 2 ^ w → leading_zeros (suc w) m ≡ 1 + leading_zeros w m
unfolding leading_zeros
leading_zeros-suc w m h = ground arith

leading_zeros_31 : leading_zeros 31 0 ≡ 31
unfolding leading_zeros
leading_zeros_31 = refl

pub expected_proof_depth-half :
    (n : ℕ) → 1 < n → n ≤ 2 ^ 32 → expected_proof_depth n ≡ suc (expected_proof_depth ((n + 1) / 2))
unfolding expected_proof_depth
expected_proof_depth-half n h k =
    let halved : (n + 1) / 2 - 1 ≡ (n - 1) / 2 = omega arith in
    rw halved (
      ground (
        arith,
        leading_zeros-half 31 (n - 1),
        leading_zeros-suc 31 ((n - 1) / 2),
        leading_zeros-le 31 ((n - 1) / 2),
        leading_zeros_31,
      ))

pub expected_proof_depth-one : expected_proof_depth 1 ≡ 0
unfolding expected_proof_depth
expected_proof_depth-one = refl

pub expected_proof_depth-le : (n : ℕ) → expected_proof_depth n ≤ 32
unfolding expected_proof_depth
expected_proof_depth-le n = ground arith
