-- ===== src/Ponw/SatGenerator/Planted.antt =====
-- Each generated instance has a solution: the planted one.
use npchain.Base.{
  ℕ, zero, suc, ◌^◌, ◌<◌, ◌≤◌, ◌≡◌, refl, ap, sym, subst, Bool, true, false, ◌||◌, List, ◌∷◌,
  length, ℤ, Floats, Returns, Returns-bind, All, Any, inl, inr, arith, Bool-cases,
}
use npchain.Crypto.Rng.{Rng, next_bounded, next_bool}
use npchain.Crypto.Rng.Draws.{Fair}
use npchain.Ponw.Problem.{ProblemType, difficulty_to_size}
use npchain.Ponw.Sat.{SatInstance, verify}
use npchain.Ponw.Sat.Verify.{Holds, Names, Satisfies, get_or-true, get_or-false, Satisfies-verify}
use npchain.Ponw.SatGenerator.{
  literal_of, literal_holds, max_attempts, planted_solution, draw_clause, draw_clauses,
  generate_sat,
}

literal_of-Names : (n v : ℕ) (negated : Bool) → v < n → Names n (literal_of v negated)
literal_of-Names n v true h = omega arith
literal_of-Names n v false h = omega arith

literal_holds-Holds :
    (planted : List Bool) (v : ℕ) (negated : Bool)
    → v < length planted
    → literal_holds planted v negated ≡ true
    → Holds planted (literal_of v negated)
literal_holds-Holds planted v true h e = get_or-false planted v h (ground arith)
literal_holds-Holds planted v false h e = get_or-true planted v h e

-- What a drawn clause promises.
abbrev IsDrawn : ℕ → List Bool → List ℤ × Bool × Rng → Type 0
IsDrawn n planted (clause, satisfied, rng) =
    (length clause ≡ n)
    × All (Names (length planted)) clause
    × (satisfied ≡ true → Any (Holds planted) clause)

IsDrawn-cons :
    (n v : ℕ) (planted : List Bool) (negated satisfied : Bool) (clause : List ℤ) (rng rng' : Rng)
    → v < length planted
    → IsDrawn n planted (clause, satisfied, rng)
    → IsDrawn
        (suc n)
        planted
        (literal_of v negated ∷ clause, literal_holds planted v negated || satisfied, rng')
IsDrawn-cons n v planted negated satisfied clause rng rng' h (len, names, holds) = (
  omega arith,
  (literal_of-Names (length planted) v negated h, names),
  (λ e. elim (Bool-cases (literal_holds planted v negated)) [
    | inl t ↦ inl (literal_holds-Holds planted v negated h t)
    | inr f ↦ inr (holds (ground arith))
  ]),
)

abbrev ClausesPlanted : List Bool → ℕ → List (List ℤ) × Rng → Type 0
ClausesPlanted planted left (clauses, rng) =
    (length clauses ≤ left)
    × All (λ c. length c ≡ 3) clauses
    × All (All (Names (length planted))) clauses
    × Satisfies planted clauses

module _ (fl : Floats) (fuel : ℕ) (planted : List Bool) (fair : Fair fuel (length planted)) where
  draw_clause_lem :
      (n : ℕ) (rng : Rng)
      → Returns (draw_clause fl fuel n (length planted) planted rng) (IsDrawn n planted)
  unfolding draw_clause
  draw_clause_lem zero rng = (refl, tt, (λ e. absurd (cc)))
  draw_clause_lem (suc n) rng =
      Returns-bind (next_bounded fuel (length planted) rng) _ (λ d. d.0 < length planted)
        (IsDrawn (suc n) planted) (fair rng)
        λ (v, rng1) h.
          Returns-bind
            (draw_clause fl fuel n (length planted) planted (next_bool fl (fl.literal 5 1) rng1).1)
            _ (IsDrawn n planted) (IsDrawn (suc n) planted)
            (draw_clause_lem n (next_bool fl (fl.literal 5 1) rng1).1)
            λ (clause, satisfied, rng3) d.
              IsDrawn-cons n v planted (next_bool fl (fl.literal 5 1) rng1).0 satisfied clause rng3
                rng3 h d

  draw_clauses_lem :
      (attempts left : ℕ) (rng : Rng)
      → Returns
          (draw_clauses fl fuel attempts left (length planted) planted rng)
          (ClausesPlanted planted left)
  unfolding draw_clauses
  draw_clauses_lem zero left rng = (omega arith, tt, tt, tt)
  draw_clauses_lem (suc attempts) zero rng = (omega arith, tt, tt, tt)
  draw_clauses_lem (suc attempts) (suc left) rng =
      Returns-bind (draw_clause fl fuel 3 (length planted) planted rng) _ (IsDrawn 3 planted)
        (ClausesPlanted planted (suc left)) (draw_clause_lem 3 rng)
        λ (clause, satisfied, rng1) (len, names, holds). elim (Bool-cases satisfied) [
          | inl e ↦ rw e (
              Returns-bind (draw_clauses fl fuel attempts left (length planted) planted rng1) _
                (ClausesPlanted planted left) (ClausesPlanted planted (suc left))
                (draw_clauses_lem attempts left rng1)
                λ (clauses, rng2) (short, sizes, inside, satisfies).
                  (omega arith, (len, sizes), (names, inside), (holds e, satisfies)))
          | inr e ↦ rw e (draw_clauses_lem attempts (suc left) rng1)
        ]

length-planted_solution :
    (fl : Floats) (n : ℕ) (rng : Rng) → length (planted_solution fl n rng).0 ≡ n
unfolding planted_solution
length-planted_solution fl zero rng = refl
length-planted_solution fl (suc n) rng =
    ap suc (length-planted_solution fl n (next_bool fl (fl.literal 5 1) rng).1)

-- The statement is about the planted solution `planted` of a size that `difficulty_to_size` gives.
abbrev pub SolvedBy : List Bool → SatInstance → Type 0
SolvedBy planted inst =
    (verify inst planted ≡ true)
    × (length inst.clauses ≤ inst.num_clauses)
    × All (λ c. length c ≡ 3) inst.clauses

-- Where the rejection loops end and the variables can be numbered by an int32_t, `generate_sat`
-- returns an instance of three literals a clause and no more clauses than asked for, and its
-- `verify` accepts the planted solution.
pub generate_sat-SolvedBy :
    (fl : Floats) (fuel : ℕ) (rng : Rng) (difficulty : ℕ)
    → (difficulty_to_size fl ProblemType.k_sat difficulty).0 < 2 ^ 31
    → Fair fuel (difficulty_to_size fl ProblemType.k_sat difficulty).0
    → Returns (generate_sat fl fuel rng difficulty) (
        SolvedBy (planted_solution fl (difficulty_to_size fl ProblemType.k_sat difficulty).0 rng).0)
unfolding generate_sat
generate_sat-SolvedBy fl fuel rng difficulty small fair =
    let n = (difficulty_to_size fl ProblemType.k_sat difficulty).0 in
    let m = (difficulty_to_size fl ProblemType.k_sat difficulty).1 in
    let (planted, rng1) = planted_solution fl n rng in
    let len : length planted ≡ n = length-planted_solution fl n rng in
    Returns-bind (draw_clauses fl fuel max_attempts m n planted rng1) _ (ClausesPlanted planted m)
      (SolvedBy planted)
      (subst
        (λ k.
          Returns (draw_clauses fl fuel max_attempts m k planted rng1) (ClausesPlanted planted m))
        len
        (draw_clauses_lem fl fuel planted (subst (Fair fuel) (sym len) fair) max_attempts m rng1))
      λ (clauses, rng2) (short, sizes, inside, satisfies). (
        Satisfies-verify (record { num_variables = n; num_clauses = m; k = 3; clauses = clauses })
            planted small (subst (λ k. All (All (Names k)) clauses) len inside) len satisfies,
        short,
        sizes,
      )
