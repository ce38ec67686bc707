-- ===== src/Ponw/Sat/Verify.antt =====
-- `SATInstance::verify` decides satisfaction.
use npchain.Base.{
  ℕ, zero, suc, ◌^◌, ◌≤◌, ◌<◌, ◌≡◌, inl, inr, refl, Bool, true, false, List, [], ◌∷◌, length,
  get_or, get_elem?, some, leb, ℤ, pos, negsuc, abs, IsInt32, All, Any, arith, Bool-cases,
}
use npchain.Ponw.Sat.{
  SatInstance, ClauseResult, var_index, literal_value, check_clause, check_clauses, verify,
}

-- What a literal says of an assignment: `pos (v + 1)` that variable v is true, `negsuc v` that
-- variable v is false.
abbrev pub Holds : List Bool → ℤ → Type 0
Holds a (pos zero) = ⊥
Holds a (pos (suc v)) = get_elem? a v ≡ some true
Holds a (negsuc v) = get_elem? a v ≡ some false

abbrev pub Satisfies : List Bool → List (List ℤ) → Type 0
Satisfies a clauses = All (Any (Holds a)) clauses

-- A literal that names one of `n` variables.
abbrev pub Names : ℕ → ℤ → Type 0
Names n l = (0 < abs l) × (abs l ≤ n)

pub get_or-true :
    (a : List Bool) (v : ℕ) → v < length a → get_or a v false ≡ true → get_elem? a v ≡ some true
get_or-true [] v h e = absurd (omega arith)
get_or-true (x ∷ a) zero h e = cc
get_or-true (x ∷ a) (suc v) h e = get_or-true a v (omega arith) e

pub get_or-false :
    (a : List Bool) (v : ℕ) → v < length a → get_or a v false ≡ false → get_elem? a v ≡ some false
get_or-false [] v h e = absurd (omega arith)
get_or-false (x ∷ a) zero h e = cc
get_or-false (x ∷ a) (suc v) h e = get_or-false a v (omega arith) e

get_elem?-get_or :
    (a : List Bool) (v : ℕ) (b : Bool) → get_elem? a v ≡ some b → get_or a v false ≡ b
get_elem?-get_or [] v b e = cc
get_elem?-get_or (x ∷ a) zero b e = cc
get_elem?-get_or (x ∷ a) (suc v) b e = get_elem?-get_or a v b e

var_index_pos : (v : ℕ) → suc v ≤ 2 ^ 32 → var_index (pos (suc v)) ≡ v
unfolding var_index
var_index_pos v h = omega arith

var_index_negsuc : (v : ℕ) → suc v ≤ 2 ^ 32 → var_index (negsuc v) ≡ v
unfolding var_index
var_index_negsuc v h = omega arith

literal_value_sound :
    (a : List Bool) (l : ℤ)
    → length a < 2 ^ 32
    → IsInt32 l
    → var_index l < length a
    → literal_value a l ≡ true
    → Holds a l
unfolding literal_value
literal_value_sound a (pos zero) b i h e = absurd (unfold var_index in omega arith)
literal_value_sound a (pos (suc v)) b i h e =
    let at : var_index (pos (suc v)) ≡ v = var_index_pos v (omega arith) in
    get_or-true a v (omega (arith, at)) (rw at at e)
literal_value_sound a (negsuc v) b i h e =
    let at : var_index (negsuc v) ≡ v = var_index_negsuc v (omega arith) in
    get_or-false a v (omega (arith, at)) (ground (arith, at))

literal_value_complete : (a : List Bool) (l : ℤ) → IsInt32 l → Holds a l → literal_value a l ≡ true
unfolding literal_value
literal_value_complete a (pos zero) i h = absurd h
literal_value_complete a (pos (suc v)) i h =
    rw (var_index_pos v (omega arith)) (get_elem?-get_or a v true h)
literal_value_complete a (negsuc v) i h =
    rw (var_index_negsuc v (omega arith)) (ground (arith, get_elem?-get_or a v false h))

check_clause_sound :
    (a : List Bool) (c : List ℤ)
    → length a < 2 ^ 32
    → All IsInt32 c
    → check_clause (length a) a c ≡ ClauseResult.satisfied
    → Any (Holds a) c
unfolding check_clause
check_clause_sound a [] b i e = absurd (cc)
check_clause_sound a (l ∷ c) b i e = elim (Bool-cases (leb (length a) (var_index l))) [
  | inl out ↦ absurd (cc (rw out at e))
  | inr within ↦ elim (Bool-cases (literal_value a l)) [
    | inl holds ↦ inl (literal_value_sound a l b i.0 (ground arith) holds)
    | inr fails ↦ inr (check_clause_sound a c b i.1 (rw (within, fails) at e))
  ]
]

Names-in_range : (n : ℕ) (l : ℤ) → n < 2 ^ 31 → Names n l → IsInt32 l × (var_index l < n)
unfolding var_index
Names-in_range n (pos m) b h = omega arith
Names-in_range n (negsuc m) b h = omega arith

check_clause_complete :
    (a : List Bool) (c : List ℤ)
    → length a < 2 ^ 31
    → All (Names (length a)) c
    → Any (Holds a) c
    → check_clause (length a) a c ≡ ClauseResult.satisfied
unfolding check_clause
check_clause_complete a [] b i h = absurd h
check_clause_complete a (l ∷ c) b i (inl h) =
    let (int32, within) = Names-in_range (length a) l b i.0 in
    ground (arith, literal_value_complete a l int32 h)
check_clause_complete a (l ∷ c) b i (inr h) =
    let (int32, within) = Names-in_range (length a) l b i.0 in
    ground (arith, check_clause_complete a c b i.1 h)

check_clauses_sound :
    (a : List Bool) (cs : List (List ℤ))
    → length a < 2 ^ 32
    → All (All IsInt32) cs
    → check_clauses (length a) a cs ≡ true
    → Satisfies a cs
unfolding check_clauses
check_clauses_sound a [] b i e = tt
check_clauses_sound a (c ∷ cs) b i e =
    (check_clause_sound a c b i.0 (ground arith), check_clauses_sound a cs b i.1 (ground arith))

pub check_clauses_complete :
    (a : List Bool) (cs : List (List ℤ))
    → length a < 2 ^ 31
    → All (All (Names (length a))) cs
    → Satisfies a cs
    → check_clauses (length a) a cs ≡ true
unfolding check_clauses
check_clauses_complete a [] b i h = refl
check_clauses_complete a (c ∷ cs) b i h =
    ground (arith, check_clause_complete a c b i.0 h.0, check_clauses_complete a cs b i.1 h.1)

verify_parts :
    (inst : SatInstance) (a : List Bool)
    → verify inst a ≡ true
    → (length a ≡ inst.num_variables) × (check_clauses (length a) a inst.clauses ≡ true)
unfolding verify
verify_parts inst a e = ground arith

-- Whatever the instance, with literals that are int32_t values other than the least: an assignment
-- that `verify` accepts has one value for each variable and makes a literal of every clause true.
pub verify-Satisfies :
    (inst : SatInstance) (a : List Bool)
    → inst.num_variables < 2 ^ 32
    → All (All IsInt32) inst.clauses
    → verify inst a ≡ true
    → (length a ≡ inst.num_variables) × Satisfies a inst.clauses
verify-Satisfies inst a b i e =
    let (len, checked) = verify_parts inst a e in
    (len, check_clauses_sound a inst.clauses (omega arith) i checked)

-- An instance whose literals name its variables: `verify` accepts every assignment that has one
-- value for each variable and satisfies every clause.
pub Satisfies-verify :
    (inst : SatInstance) (a : List Bool)
    → inst.num_variables < 2 ^ 31
    → All (All (Names inst.num_variables)) inst.clauses
    → length a ≡ inst.num_variables
    → Satisfies a inst.clauses
    → verify inst a ≡ true
unfolding verify
Satisfies-verify inst a b i len h =
    let checked : check_clauses (length a) a inst.clauses ≡ true =
      check_clauses_complete a inst.clauses (omega arith) (rw len i) h in
    ground (arith, rw len at checked)
