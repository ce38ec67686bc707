-- ===== src/Mining/Propagate/Ends.antt =====
-- Propagation ends: each visited literal is on the trail, which has at most one literal for each
-- variable.
use npchain.Base.{
  ℕ, zero, suc, ◌+◌, ◌≤◌, ◌<◌, ◌≡◌, inl, inr, refl, true, false, Option, List, [], ◌∷◌, arith,
  length, get_or, set, length-set, All, if◌then◌else◌, ℤ, is_negative, Floats, Bool-cases,
}
use npchain.Ponw.Sat.{var_index}
use npchain.Mining.State.{
  VarState, Clause, InternalState, is_unassigned_state, is_unassigned, assign,
}

unfoldable pub count_unassigned : List VarState → ℕ
count_unassigned [] = 0
count_unassigned (v ∷ vs) =
    let rest = count_unassigned vs in if is_unassigned_state v then suc rest else rest

count_unassigned-set :
    (vs : List VarState) (i : ℕ) (v : VarState)
    → i < length vs
    → is_unassigned_state (get_or vs i VarState.unassigned) ≡ true
    → is_unassigned_state v ≡ false
    → count_unassigned (set vs i v) + 1 ≡ count_unassigned vs
unfolding count_unassigned
count_unassigned-set [] i v h free fixed = absurd (omega arith)
count_unassigned-set (w ∷ vs) zero v h free fixed = rw (free, fixed) (omega arith)
count_unassigned-set (w ∷ vs) (suc i) v h free fixed =
    let again = count_unassigned-set vs i v (omega arith) free fixed in
    elim (Bool-cases (is_unassigned_state w)) [
      | inl e ↦ rw e (omega (arith, again))
      | inr e ↦ rw e (omega (arith, again))
    ]

abbrev pub Within : ℕ → ℤ → Type 0
Within n lit = var_index lit < n

module _ (fl : Floats) (n : ℕ) where
  open fl use {Double}

  abbrev pub WithinClause : Clause Double → Type 0
  WithinClause c = All (Within n) c.literals

  -- The literals name variables, and each literal on the trail has taken an unassigned one.
  pub record IsSized (s : InternalState Double) : Type 0 where
    pub sized : length s.assignment ≡ n
    pub room : length s.trail + count_unassigned s.assignment ≤ n
    pub names : All WithinClause s.clauses

  pub assign-IsSized :
      (s : InternalState Double) (lit : ℤ) (by : Option ℕ)
      → IsSized s
      → Within n lit
      → is_unassigned s lit ≡ true
      → IsSized (assign s lit by)
  unfolding assign
  assign-IsSized s lit by h within free =
      let v = if is_negative lit then VarState.is_false else VarState.is_true in
      let fixed : is_unassigned_state v ≡ false = elim (Bool-cases (is_negative lit)) [
        | inl e ↦ rw e refl
        | inr e ↦ rw e refl
      ] in
      let inside : var_index lit < length s.assignment = omega (arith, h.sized) in
      record {
        sized = omega (arith, length-set s.assignment (var_index lit) v, h.sized);
        room =
            omega (
              arith,
              count_unassigned-set s.assignment (var_index lit) v inside free fixed,
              h.room,
            );
        names = h.names;
      }
