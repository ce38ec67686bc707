-- ===== src/Ponw/Hamiltonian.antt =====
-- `HamiltonianInstance` and its `verify`.
pub mod Verify
use npchain.Base.{
  ℕ, ◌+◌, ◌*◌, ◌^◌, min, max, Bool, true, false, List, [], ◌∷◌, map, length, get_or, set, replicate,
  contains, leb, ◌==◌, if◌then◌else◌,
}

pub record HamiltonianInstance : Type 0 where
  pub num_vertices : ℕ
  pub edges : List (ℕ × ℕ)

unfoldable pub check_visits : ℕ → List Bool → List ℕ → Bool
check_visits n visited [] = true
check_visits n visited (v ∷ vs) =
    let rest = check_visits n (set visited v true) vs in
    if leb n v then false else if get_or visited v false then false else rest

-- (a << 32) | b, where b is a uint32_t.
unfoldable pub edge_key : ℕ × ℕ → ℕ
edge_key (u, v) = min u v * 2 ^ 32 + max u v

-- The set is only asked for its members.
unfoldable pub edge_set : List (ℕ × ℕ) → List ℕ
edge_set edges = map edge_key edges

unfoldable pub check_steps : List ℕ → List ℕ → Bool
check_steps keys [] = true
check_steps keys (u ∷ []) = true
check_steps keys (u ∷ v ∷ vs) =
    let rest = check_steps keys (v ∷ vs) in if contains keys (edge_key (u, v)) then rest else false

unfoldable pub verify : HamiltonianInstance → List ℕ → Bool
verify inst path =
    if length path == inst.num_vertices
    then if check_visits inst.num_vertices (replicate inst.num_vertices false) path
      then check_steps (edge_set inst.edges) path
      else false
    else false
