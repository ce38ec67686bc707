-- ===== src/Ponw/Shuffle/Arrangement.antt =====
-- A shuffle of the numbers below `n` holds each of them once.
use npchain.Base.{
  ℕ, zero, suc, ◌+◌, ◌%◌, ◌<◌, ◌≡◌, ◌≢◌, ◌∙◌, List, [], ◌∷◌, length, get_or, set, length-set,
  get_or-set, tabulate, length-tabulate, All, Distinct, Returns, ◌==◌, if◌then◌else◌, arith,
  Bool-cases, inl, inr,
}
use npchain.Crypto.Rng.{Rng, next_u64}
use npchain.Crypto.Rng.Draws.{Lucky, Lucky-draw, Lucky-le}
use npchain.Ponw.Shuffle.{swap, iota, shuffle, draw_edge}

pub record IsArrangement (n : ℕ) (xs : List ℕ) : Type 0 where
  pub size : length xs ≡ n
  pub inside : (i : ℕ) → i < n → get_or xs i 0 < n
  pub apart : (i j : ℕ) → i < n → j < n → get_or xs i 0 ≡ get_or xs j 0 → i ≡ j

get_or-tabulate : (n s k : ℕ) → k < n → get_or (tabulate n s (λ i. i)) k 0 ≡ s + k
unfolding tabulate
get_or-tabulate zero s k h = absurd (omega arith)
get_or-tabulate (suc n) s zero h = omega arith
get_or-tabulate (suc n) s (suc k) h = omega (arith, get_or-tabulate n (s + 1) k (omega arith))

pub iota-IsArrangement : (n : ℕ) → IsArrangement n (iota n)
unfolding iota
iota-IsArrangement n = record {
  size = length-tabulate n 0 (λ i. i);
  inside = λ i h. omega (arith, get_or-tabulate n 0 i h);
  apart = λ i j hi hj e. omega (arith, get_or-tabulate n 0 i hi, get_or-tabulate n 0 j hj, e);
}

length-swap : (xs : List ℕ) (i j : ℕ) → length (swap xs i j) ≡ length xs
unfolding swap
length-swap xs i j =
    length-set (set xs i (get_or xs j 0)) j (get_or xs i 0) ∙ length-set xs i (get_or xs j 0)

get_or-swap :
    (xs : List ℕ) (a b k : ℕ)
    → a < length xs
    → b < length xs
    → get_or (swap xs a b) k 0
      ≡ (if k == b then get_or xs a 0 else if k == a then get_or xs b 0 else get_or xs k 0)
unfolding swap
get_or-swap xs a b k ha hb =
    let first = set xs a (get_or xs b 0) in
    let (hit1, miss1) = get_or-set xs a k (get_or xs b 0) 0 ha in
    let (hit2, miss2) =
      get_or-set first b k (get_or xs a 0) 0 (omega (arith, length-set xs a (get_or xs b 0))) in
    elim (Bool-cases (k == b)) [
      | inl same ↦ rw same (hit2 (ground arith))
      | inr other ↦ elim (Bool-cases (k == a)) [
        | inl at ↦ rw (other, at) (miss2 (λ e. ground arith) ∙ hit1 (ground arith))
        | inr off ↦ rw (other, off) (miss2 (λ e. ground arith) ∙ miss1 (λ e. ground arith))
      ]
    ]

swap-IsArrangement :
    (n : ℕ) (xs : List ℕ) (a b : ℕ)
    → a < n
    → b < n
    → IsArrangement n xs
    → IsArrangement n (swap xs a b)
swap-IsArrangement n xs a b ha hb r =
    let ha' : a < length xs = omega (arith, r.size) in
    let hb' : b < length xs = omega (arith, r.size) in
    record {
      size = length-swap xs a b ∙ r.size;
      inside = λ i h.
          ground (arith, get_or-swap xs a b i ha' hb', r.inside i h, r.inside a ha, r.inside b hb);
      apart = λ i j hi hj e. ground (
        arith,
        get_or-swap xs a b i ha' hb',
        get_or-swap xs a b j ha' hb',
        e,
        r.apart i j hi hj,
        r.apart i a hi ha,
        r.apart i b hi hb,
        r.apart a j ha hj,
        r.apart b j hb hj,
        r.apart a b ha hb,
      );
    }

-- With a word for each draw, the shuffle ends, and the words that are left are as lucky.
pub shuffle-IsArrangement :
    (fuel n i rest : ℕ) (xs : List ℕ) (rng : Rng)
    → i < n
    → IsArrangement n xs
    → Lucky n (i + rest) rng
    → Returns (shuffle (suc fuel) i xs rng) (λ d. IsArrangement n d.0 × Lucky n rest d.1)
unfolding shuffle
shuffle-IsArrangement fuel n zero rest xs rng h r lucky =
    (r, Lucky-le n rest (0 + rest) rng (omega arith) lucky)
shuffle-IsArrangement fuel n (suc i) rest xs rng h r lucky =
    let lucky' = Lucky-le n (suc (i + rest)) (suc i + rest) rng (omega arith) lucky in
    let (drawn, below) =
      Lucky-draw fuel n (i + rest) (i + 2) rng lucky' (omega arith) (omega arith) in
    let j = (next_u64 rng).0 % (i + 2) in
    rw drawn (
      shuffle-IsArrangement fuel n i rest (swap xs (suc i) j) (next_u64 rng).1 (omega arith)
        (swap-IsArrangement n xs (suc i) j h (omega arith) r) lucky'.1)

-- An arrangement as a list.
All-at : (P : ℕ → Type 0) (xs : List ℕ) → ((k : ℕ) → k < length xs → P (get_or xs k 0)) → All P xs
All-at P [] h = tt
All-at P (x ∷ xs) h = (h 0 (omega arith), All-at P xs (λ k lt. h (suc k) (omega arith)))

Distinct-at :
    (xs : List ℕ)
    → ((i j : ℕ) → i < length xs → j < length xs → get_or xs i 0 ≡ get_or xs j 0 → i ≡ j)
    → Distinct xs
Distinct-at [] h = tt
Distinct-at (x ∷ xs) h = (
  All-at (λ y. y ≢ x) xs
      (λ k lt e. absurd (omega (arith, h (suc k) 0 (omega arith) (omega arith) e))),
  Distinct-at xs (λ i j hi hj e. omega (arith, h (suc i) (suc j) (omega arith) (omega arith) e)),
)

pub IsArrangement-All : (n : ℕ) (xs : List ℕ) → IsArrangement n xs → All (λ v. v < n) xs
IsArrangement-All n xs r = All-at (λ v. v < n) xs (λ k h. r.inside k (omega (arith, r.size)))

pub IsArrangement-Distinct : (n : ℕ) (xs : List ℕ) → IsArrangement n xs → Distinct xs
IsArrangement-Distinct n xs r =
    Distinct-at xs (λ i j hi hj e. r.apart i j (omega (arith, r.size)) (omega (arith, r.size)) e)

-- With two words, the draw of an edge ends.
pub draw_edge_lem :
    (fuel n rest : ℕ) (rng : Rng)
    → 0 < n
    → Lucky n (suc (suc rest)) rng
    → Returns (draw_edge (suc fuel) n rng) (λ d. (d.0.0 < n) × (d.0.1 < n) × Lucky n rest d.1)
unfolding draw_edge
draw_edge_lem fuel n rest rng pos lucky =
    let (first, below1) = Lucky-draw fuel n (suc rest) n rng lucky pos (omega arith) in
    let (second, below2) = Lucky-draw fuel n rest n (next_u64 rng).1 lucky.1 pos (omega arith) in
    rw first (rw second (omega arith, omega arith, lucky.1.1))
