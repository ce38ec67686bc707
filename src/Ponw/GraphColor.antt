-- ===== src/Ponw/GraphColor.antt =====
-- `GraphColorInstance` and its `verify`.
pub mod Verify
use npchain.Base.{
  ℕ, Bool, true, false, List, [], ◌∷◌, length, get_or, leb, ◌==◌, ◌||◌, if◌then◌else◌,
}

pub record GraphColorInstance : Type 0 where
  pub num_vertices : ℕ
  pub num_colors : ℕ
  pub edges : List (ℕ × ℕ)

unfoldable pub colors_in_range : ℕ → List ℕ → Bool
colors_in_range k [] = true
colors_in_range k (c ∷ cs) = let rest = colors_in_range k cs in if leb k c then false else rest

unfoldable pub check_edges : ℕ → List ℕ → List (ℕ × ℕ) → Bool
check_edges n colors [] = true
check_edges n colors ((u, v) ∷ es) =
    let rest = check_edges n colors es in
    if leb n u || leb n v
    then false
    else if get_or colors u 0 == get_or colors v 0
    then false
    else rest

unfoldable pub verify : GraphColorInstance → List ℕ → Bool
unfolding colors_in_range check_edges
verify inst colors =
    if length colors == inst.num_vertices
    then if colors_in_range inst.num_colors colors
      then check_edges inst.num_vertices colors inst.edges
      else false
    else false
