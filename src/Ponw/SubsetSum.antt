-- ===== src/Ponw/SubsetSum.antt =====
-- `SubsetSumInstance` and its `verify`.
pub mod Verify
use npchain.Base.{
  ℕ, ◌+◌, ◌%◌, ◌^◌, Bool, true, false, Option, none, some, List, [], ◌∷◌, length, get_or, leb, ltb,
  ◌==◌, ◌&&◌, not, if◌then◌else◌, contains,
}

pub record SubsetSumInstance : Type 0 where
  pub elements : List ℕ
  pub target : ℕ
  pub required_subset_size : ℕ

-- The loop over the indices: the sum of their elements in uint64, or `none` where it returns false.
unfoldable pub sum_loop : List ℕ → List ℕ → ℕ → List ℕ → Option ℕ
sum_loop elements seen sum [] = some sum
sum_loop elements seen sum (idx ∷ rest) =
    let next = sum_loop elements (idx ∷ seen) ((sum + get_or elements idx 0) % 2 ^ 64) rest in
    if leb (length elements) idx then none else if contains seen idx then none else next

abbrev sums_to : ℕ → Option ℕ → Bool
sums_to target none = false
sums_to target (some sum) = sum == target

abbrev is_empty : List ℕ → Bool
is_empty [] = true
is_empty (x ∷ xs) = false

unfoldable pub verify : SubsetSumInstance → List ℕ → Bool
unfolding sum_loop contains
verify inst indices =
    let summed = sum_loop inst.elements [] 0 indices in
    let wrong_size =
      ltb 0 inst.required_subset_size && not (length indices == inst.required_subset_size) in
    if is_empty indices
    then false
    else elim summed [ none ↦ false | some sum ↦ if wrong_size then false else sum == inst.target ]
