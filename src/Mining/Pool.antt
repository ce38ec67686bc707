-- ===== src/Mining/Pool.antt =====
-- `SolverPool` of src/mining/sat_solver.cpp. Its threads are taken in the order in which they reach
-- the exchange of `found`; each comes with what its solver returned. A thread that finds the flag set
-- returns nothing.
pub mod First
use npchain.Base.{
  ℕ, zero, suc, ◌+◌, ◌%◌, ◌^◌, Bool, true, false, not, ◌&&◌, Option, none, some, List, [], ◌∷◌,
  ◌++◌, Bytes, replicate, is_some, if◌then◌else◌,
}
use npchain.Ponw.Engine.{Witness}
use npchain.Ponw.Problem.{ProblemType}
use npchain.Ponw.Witness.{NpInstance}

pub record Stats : Type 0 where
  pub attempts : ℕ
  pub solutions : ℕ
  pub timeouts : ℕ
  pub last_solver : Bytes

-- `ISolver`: its name and the problem that it solves.
pub record Solver : Type 0 where
  pub name : Bytes
  pub problem_type : ProblemType

pub record Race : Type 0 where
  pub found : Bool
  pub result : Option Witness
  pub stats : Stats

abbrev pub type_of : NpInstance → ProblemType
type_of (NpInstance.sat i) = ProblemType.k_sat
type_of (NpInstance.subset_sum i) = ProblemType.subset_sum
type_of (NpInstance.graph_color i) = ProblemType.graph_coloring
type_of (NpInstance.hamiltonian i) = ProblemType.hamiltonian_path

abbrev pub same_type : ProblemType → ProblemType → Bool
same_type ProblemType.k_sat ProblemType.k_sat = true
same_type ProblemType.subset_sum ProblemType.subset_sum = true
same_type ProblemType.graph_coloring ProblemType.graph_coloring = true
same_type ProblemType.hamiltonian_path ProblemType.hamiltonian_path = true
same_type _ _ = false

-- The threads that are started, each by the name of its solver.
unfoldable pub launch : ℕ → ProblemType → List Solver → List Bytes
launch copies type [] = []
launch copies type (solver ∷ solvers) =
    let rest = launch copies type solvers in
    if not (same_type solver.problem_type type) then rest else replicate copies solver.name ++ rest

-- One thread: only the first that has a witness stores it.
unfoldable pub finish : Race → Bytes → Option Witness → Race
finish r name none = r
finish r name (some w) = if r.found then r else record {
  found = true;
  result = some w;
  stats = record r.stats { solutions = (r.stats.solutions + 1) % 2 ^ 64; last_solver = name };
}

unfoldable pub finish_all : Race → List (Bytes × Option Witness) → Race
finish_all r [] = r
finish_all r ((name, witness) ∷ rest) = finish_all (finish r name witness) rest

unfoldable pub mine : Stats → List (Bytes × Option Witness) → Option Witness × Stats
mine stats finishes =
    let r = finish_all (record { found = false; result = none; stats = stats }) finishes in
    let counted = record r.stats { attempts = (r.stats.attempts + 1) % 2 ^ 64 } in
    (
      r.result,
      if not (is_some r.result)
          then record counted { timeouts = (counted.timeouts + 1) % 2 ^ 64 }
          else counted,
    )
