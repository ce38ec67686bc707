-- ===== src/Mining/Search/Loaded.antt =====
-- The state that a search starts from, and its decisions.
use npchain.Base.{
  ℕ, zero, suc, ◌≡◌, refl, ap, Bool, true, none, List, [], ◌∷◌, length, length-replicate, replicate,
  All, All-append, ℤ, Floats, arith,
}
use npchain.Mining.State.{VarState, Clause, InternalState, is_unassigned, assign}
use npchain.Mining.Propagate.Ends.{Within, WithinClause, IsSized, count_unassigned, assign-IsSized}
use npchain.Mining.Conflict.{Config}
use npchain.Mining.Search.{initial_state, watch_first, load_clause, load_clauses, decide}

count_unassigned-replicate : (n : ℕ) → count_unassigned (replicate n VarState.unassigned) ≡ n
unfolding count_unassigned
count_unassigned-replicate zero = refl
count_unassigned-replicate (suc n) = ap suc (count_unassigned-replicate n)

module _ (fl : Floats) (n : ℕ) where
  watch_first-IsSized :
      (s : InternalState fl.Double) (ci : ℕ) (lits : List ℤ)
      → IsSized fl n s
      → IsSized fl n (watch_first fl s ci lits)
  unfolding watch_first
  watch_first-IsSized s ci [] h = h
  watch_first-IsSized s ci (a ∷ []) h = record { sized = h.sized; room = h.room; names = h.names }
  watch_first-IsSized s ci (a ∷ b ∷ lits) h = record {
    sized = h.sized;
    room = h.room;
    names = h.names;
  }

  load_clauses-IsSized :
      (s : InternalState fl.Double) (cs : List (List ℤ))
      → IsSized fl n s
      → All (All (Within n)) cs
      → IsSized fl n (load_clauses fl s cs)
  unfolding load_clauses
  load_clauses-IsSized s [] h all = h
  load_clauses-IsSized s (lits ∷ cs) h (first, rest) =
      let watched = watch_first-IsSized s (length s.clauses) lits h in
      load_clauses-IsSized (load_clause fl s lits) cs
        (record {
          sized = watched.sized;
          room = watched.room;
          names = All-append (WithinClause fl n) s.clauses _ h.names (first, tt);
        })
        rest

  module _ (cfg : Config fl.Double) (sort : List (Clause fl.Double) → List (Clause fl.Double))
      (is_stopped : ℕ → Bool) (fuel : ℕ) where
    -- For clauses whose literals name the variables, the search starts from a sized state.
    pub loaded-IsSized :
        (cs : List (List ℤ))
        → All (All (Within n)) cs
        → IsSized fl n (load_clauses fl (initial_state fl cfg sort is_stopped fuel n) cs)
    loaded-IsSized cs all =
        load_clauses-IsSized (initial_state fl cfg sort is_stopped fuel n) cs
          (record {
            sized = length-replicate n VarState.unassigned;
            room = omega (arith, count_unassigned-replicate n);
            names = tt;
          })
          all

    -- A decision for an unassigned variable keeps the state sized.
    pub decide-IsSized :
        (s : InternalState fl.Double) (lit : ℤ)
        → IsSized fl n s
        → Within n lit
        → is_unassigned s lit ≡ true
        → IsSized fl n (decide fl cfg sort is_stopped fuel s lit)
    unfolding assign
    decide-IsSized s lit h within free =
        let next = assign-IsSized fl n s lit none h within free in
        record { sized = next.sized; room = next.room; names = next.names }
