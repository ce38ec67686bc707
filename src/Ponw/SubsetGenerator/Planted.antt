-- ===== src/Ponw/SubsetGenerator/Planted.antt =====
-- Each generated Subset-Sum instance has a solution: the planted subset.
use npchain.Base.{
  ℕ, zero, suc, ◌+◌, ◌-◌, ◌*◌, ◌/◌, ◌%◌, ◌^◌, ◌<◌, ◌≤◌, ◌≡◌, refl, ap, sym, subst, inl, true, List,
  [], ◌∷◌, length, get_or, take, length-take, All, All-take, Distinct-take, Returns, Returns-bind,
  all_below, all_below_sound, ==_iff, ◌==◌, min, arith,
}
use native.Mathlib.Nat.{one-le-pow}
use npchain.Crypto.Rng.{Rng, next_u64, threshold}
use npchain.Crypto.Rng.Draws.{Lucky, Lucky-draw, Lucky-le, next_bounded_accepts}
use npchain.Ponw.Shuffle.{iota, shuffle}
use npchain.Ponw.Shuffle.Arrangement.{
  IsArrangement, iota-IsArrangement, shuffle-IsArrangement, IsArrangement-All,
  IsArrangement-Distinct,
}
use npchain.Ponw.SubsetGenerator.{draw_elements, clamp_size, planted_sum, plant_subset}
use npchain.Ponw.SubsetSum.{verify}
use npchain.Ponw.SubsetSum.Verify.{total, IsWitness, verify-IsWitness_iff}

power_table : all_below 63 (λ k. threshold (2 ^ k) == 0) ≡ true
unfolding all_below threshold
power_table = refl

threshold_power : (k : ℕ) → k < 63 → threshold (2 ^ k) ≡ 0
threshold_power k h =
    (==_iff (threshold (2 ^ k)) 0).0
      (all_below_sound 63 (λ k'. threshold (2 ^ k') == 0) k power_table h)

draw_elements_lem :
    (fuel n max_val bound rest : ℕ) (rng : Rng)
    → 0 < max_val
    → threshold max_val ≡ 0
    → Lucky bound (n + rest) rng
    → Returns
        (draw_elements (suc fuel) n max_val rng)
        (λ d. (length d.0 ≡ n) × Lucky bound rest d.1)
unfolding draw_elements
draw_elements_lem fuel zero max_val bound rest rng pos exact lucky =
    (refl, Lucky-le bound rest (0 + rest) rng (omega arith) lucky)
draw_elements_lem fuel (suc n) max_val bound rest rng pos exact lucky =
    let lucky' = Lucky-le bound (suc (n + rest)) (suc n + rest) rng (omega arith) lucky in
    let next = (next_u64 rng).1 in
    rw (next_bounded_accepts fuel max_val rng pos (omega (arith, exact))) (
      Returns-bind (draw_elements (suc fuel) n max_val next) _
        (λ d. (length d.0 ≡ n) × Lucky bound rest d.1)
        (λ d. (length d.0 ≡ suc n) × Lucky bound rest d.1)
        (draw_elements_lem fuel n max_val bound rest next pos exact lucky'.1)
        λ (values, rng2) (len, left). (omega arith, left))

planted_sum-total :
    (elements : List ℕ) (sum : ℕ) (is : List ℕ)
    → sum < 2 ^ 64
    → planted_sum elements sum is ≡ (sum + total elements is) % 2 ^ 64
unfolding planted_sum
planted_sum-total elements sum [] small = omega arith
planted_sum-total elements sum (i ∷ is) small =
    omega
      (arith, planted_sum-total elements ((sum + get_or elements i 0) % 2 ^ 64) is (omega arith))

-- The first indices of an arrangement of all of them are a witness of their own sum.
planted-IsWitness :
    (n size : ℕ) (elements indices : List ℕ)
    → length elements ≡ n
    → IsArrangement n indices
    → 0 < size
    → size ≤ n
    → IsWitness
        (record {
          elements = elements;
          target = planted_sum elements 0 (take size indices);
          required_subset_size = 0;
        })
        (take size indices)
planted-IsWitness n size elements indices len r pos le = record {
  inhabited =
      λ e. absurd (omega (arith, ap length e, length-take size indices (omega (arith, r.size))));
  within =
      subst (λ k. All (λ i. i < k) (take size indices)) (sym len)
        (All-take (λ i. i < n) size indices (IsArrangement-All n indices r));
  distinct = Distinct-take size indices (IsArrangement-Distinct n indices r);
  size = inl refl;
  sum = omega (arith, planted_sum-total elements 0 (take size indices) (omega arith));
}

clamp_size_bounds :
    (set_size size : ℕ)
    → 0 < set_size
    → (0 < clamp_size set_size size) × (clamp_size set_size size ≤ set_size)
clamp_size_bounds set_size size h = ground arith

-- With two words of the generator for each element, none of them less than the size of the set.
pub plant_subset-verify :
    (fuel : ℕ) (rng : Rng) (n bits : ℕ)
    → 2 ≤ n
    → Lucky n (2 * n) rng
    → Returns (plant_subset (suc fuel) rng n bits) (λ d. verify d.0 d.1 ≡ true)
unfolding plant_subset
plant_subset-verify fuel rng n bits two lucky =
    let max_val = 2 ^ min bits 62 in
    let lucky' = Lucky-le n (n + suc (n - 1 + 0)) (2 * n) rng (omega arith) lucky in
    let small : min bits 62 < 63 = omega arith in
    let exact : threshold max_val ≡ 0 = threshold_power (min bits 62) small in
    Returns-bind (draw_elements (suc fuel) n max_val rng) _
      (λ d. (length d.0 ≡ n) × Lucky n (suc (n - 1 + 0)) d.1) (λ d. verify d.0 d.1 ≡ true)
      (draw_elements_lem fuel n max_val n (suc (n - 1 + 0)) rng
        (one-le-pow (min bits 62) 2 (omega arith)) exact lucky')
      λ (elements, rng1) (len, left).
        let (drawn, below) =
          Lucky-draw fuel n (n - 1 + 0) (n / 2) rng1 left (omega arith) (omega arith) in
        let size = clamp_size n (((next_u64 rng1).0 % (n / 2) + n / 4) % 2 ^ 32) in
        let (some_size, within) =
          clamp_size_bounds n (((next_u64 rng1).0 % (n / 2) + n / 4) % 2 ^ 32) (omega arith) in
        rw drawn (
          Returns-bind (shuffle (suc fuel) (n - 1) (iota n) (next_u64 rng1).1) _
            (λ d. IsArrangement n d.0 × Lucky n 0 d.1) (λ d. verify d.0 d.1 ≡ true)
            (shuffle-IsArrangement fuel n (n - 1) 0 (iota n) (next_u64 rng1).1 (omega arith)
              (iota-IsArrangement n) left.1)
            λ (indices, rng3) (r, end).
              (verify-IsWitness_iff _ _).1
                (planted-IsWitness n size elements indices len r some_size within))
