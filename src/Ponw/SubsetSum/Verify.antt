-- ===== src/Ponw/SubsetSum/Verify.antt =====
-- `SubsetSumInstance::verify` decides whether indices pick out a subset with the target sum.
use npchain.Base.{
  ℕ, ◌+◌, ◌%◌, ◌^◌, ◌<◌, ◌≡◌, ◌≢◌, ◌↔◌, ◌⊎◌, inl, inr, refl, sym, true, false, some, List, [], ◌∷◌,
  length, get_or, leb, contains, NotIn, Distinct, All, NotIn-contains, contains-NotIn, arith,
  Bool-cases, Option-cases,
}
use npchain.Ponw.SubsetSum.{SubsetSumInstance, sum_loop, verify}

-- The sum of the elements at the indices, with no wrap.
abbrev pub total : List ℕ → List ℕ → ℕ
total elements [] = 0
total elements (i ∷ is) = get_or elements i 0 + total elements is

abbrev Fresh : List ℕ → List ℕ → Type 0
Fresh seen is = All (λ i. NotIn i seen) is

abbrev Within : List ℕ → List ℕ → Type 0
Within elements is = All (λ i. i < length elements) is

Fresh-cons : (x : ℕ) (seen is : List ℕ) → Fresh seen is → NotIn x is → Fresh (x ∷ seen) is
Fresh-cons x seen [] f n = tt
Fresh-cons x seen (i ∷ is) f n = (((λ e. n.0 (sym e)), f.0), Fresh-cons x seen is f.1 n.1)

Fresh-tail : (x : ℕ) (seen is : List ℕ) → Fresh (x ∷ seen) is → Fresh seen is × NotIn x is
Fresh-tail x seen [] f = (tt, tt)
Fresh-tail x seen (i ∷ is) f =
    let (front, back) = Fresh-tail x seen is f.1 in ((f.0.1, front), ((λ e. f.0.0 (sym e)), back))

sum_loop_sound :
    (elements seen : List ℕ) (sum : ℕ) (is : List ℕ) (t : ℕ)
    → sum < 2 ^ 64
    → sum_loop elements seen sum is ≡ some t
    → Within elements is × Distinct is × Fresh seen is × ((sum + total elements is) % 2 ^ 64 ≡ t)
unfolding sum_loop
sum_loop_sound elements seen sum [] t b e = (tt, tt, tt, ground arith)
sum_loop_sound elements seen sum (i ∷ is) t b e = elim (Bool-cases (leb (length elements) i)) [
  | inl out ↦ absurd (cc (rw out at e))
  | inr within ↦ elim (Bool-cases (contains seen i)) [
    | inl old ↦ absurd (cc (rw (within, old) at e))
    | inr new ↦
        let (w, d, f, s) =
          sum_loop_sound elements (i ∷ seen) ((sum + get_or elements i 0) % 2 ^ 64) is t
            (omega arith) (rw (within, new) at e) in
        let (front, back) = Fresh-tail i seen is f in
        ((ground arith, w), (back, d), (NotIn-contains i seen new, front), ground arith)
  ]
]

sum_loop_complete :
    (elements seen : List ℕ) (sum : ℕ) (is : List ℕ)
    → sum < 2 ^ 64
    → Within elements is
    → Distinct is
    → Fresh seen is
    → sum_loop elements seen sum is ≡ some ((sum + total elements is) % 2 ^ 64)
unfolding sum_loop
sum_loop_complete elements seen sum [] b w d f = ground arith
sum_loop_complete elements seen sum (i ∷ is) b w d f =
    let within : leb (length elements) i ≡ false = ground (arith, w.0) in
    let next =
      sum_loop_complete elements (i ∷ seen) ((sum + get_or elements i 0) % 2 ^ 64) is (omega arith)
        w.1 d.1 (Fresh-cons i seen is f.1 d.0) in
    rw (within, contains-NotIn i seen f.0) (ground (arith, next))

-- Indices are a witness if there is one at least, each is an index, none repeats, their number is
-- the required one (0 asks for none), and their elements add up to the target in uint64.
pub record IsWitness (inst : SubsetSumInstance) (indices : List ℕ) : Type 0 where
  pub inhabited : indices ≢ []
  pub within : All (λ i. i < length inst.elements) indices
  pub distinct : Distinct indices
  pub size : (inst.required_subset_size ≡ 0) ⊎ (length indices ≡ inst.required_subset_size)
  pub sum : total inst.elements indices % 2 ^ 64 ≡ inst.target

verify_sound : (inst : SubsetSumInstance) (is : List ℕ) → verify inst is ≡ true → IsWitness inst is
unfolding verify
verify_sound inst [] e = absurd (cc)
verify_sound inst (i ∷ is) e = elim (Option-cases (sum_loop inst.elements [] 0 (i ∷ is))) [
  | inl bad ↦ absurd (cc (rw (bad, verify) at e))
  | inr (t, good) ↦
      let (w, d, f, s) = sum_loop_sound inst.elements [] 0 (i ∷ is) t (omega arith) good in
      record {
        inhabited = λ p. cc;
        within = w;
        distinct = d;
        size = ground (arith, good);
        sum = ground (arith, good);
      }
]

Fresh-start : (is : List ℕ) → Fresh [] is
Fresh-start [] = tt
Fresh-start (i ∷ is) = (tt, Fresh-start is)

verify_complete :
    (inst : SubsetSumInstance) (is : List ℕ) → IsWitness inst is → verify inst is ≡ true
unfolding verify
verify_complete inst [] h = absurd (h.inhabited refl)
verify_complete inst (i ∷ is) h = ground (
  arith,
  h.size,
  h.sum,
  sum_loop_complete inst.elements [] 0 (i ∷ is) (omega arith) h.within h.distinct
      (Fresh-start (i ∷ is)),
)

-- `verify` accepts exactly the witnesses.
pub verify-IsWitness_iff :
    (inst : SubsetSumInstance) (indices : List ℕ)
    → (verify inst indices ≡ true) ↔ IsWitness inst indices
verify-IsWitness_iff inst indices = (verify_sound inst indices, verify_complete inst indices)
