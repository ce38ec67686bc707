-- ===== src/Ponw/GraphColor/Verify.antt =====
-- `GraphColorInstance::verify` decides whether a coloring is proper.
use npchain.Base.{
  ℕ, zero, suc, ◌<◌, ◌≡◌, ◌≢◌, ◌↔◌, refl, true, some, List, [], ◌∷◌, length, get_or, get_elem?, All,
  arith,
}
use npchain.Ponw.GraphColor.{GraphColorInstance, colors_in_range, check_edges, verify}

-- Both ends have a color, and not the same one.
abbrev pub EdgeProper : List ℕ → ℕ × ℕ → Type 0
EdgeProper colors (u, v) =
    (c : ℕ) × (d : ℕ) × (get_elem? colors u ≡ some c) × (get_elem? colors v ≡ some d) × (c ≢ d)

pub record IsColoring (inst : GraphColorInstance) (colors : List ℕ) : Type 0 where
  pub each_vertex : length colors ≡ inst.num_vertices
  pub in_range : All (λ c. c < inst.num_colors) colors
  pub proper : All (EdgeProper colors) inst.edges

pub get_elem?-get_or : (xs : List ℕ) (i : ℕ) → i < length xs → get_elem? xs i ≡ some (get_or xs i 0)
get_elem?-get_or [] i h = absurd (omega arith)
get_elem?-get_or (x ∷ xs) zero h = refl
get_elem?-get_or (x ∷ xs) (suc i) h = get_elem?-get_or xs i (omega arith)

get_elem?-inside :
    (xs : List ℕ) (i x : ℕ) → get_elem? xs i ≡ some x → (i < length xs) × (get_or xs i 0 ≡ x)
get_elem?-inside [] i x h = absurd (cc)
get_elem?-inside (y ∷ xs) zero x h = (omega arith, ground arith)
get_elem?-inside (y ∷ xs) (suc i) x h = let (lt, e) = get_elem?-inside xs i x h in (omega arith, e)

colors_in_range_iff : (k : ℕ) (cs : List ℕ) → (colors_in_range k cs ≡ true) ↔ All (λ c. c < k) cs
unfolding colors_in_range
colors_in_range_iff k [] = ((λ e. tt), (λ h. refl))
colors_in_range_iff k (c ∷ cs) = (
  (λ e. (ground arith, (colors_in_range_iff k cs).0 (ground arith))),
  (λ h. ground (arith, h.0, (colors_in_range_iff k cs).1 h.1)),
)

check_edges_sound :
    (colors : List ℕ) (es : List (ℕ × ℕ))
    → check_edges (length colors) colors es ≡ true
    → All (EdgeProper colors) es
unfolding check_edges
check_edges_sound colors [] e = tt
check_edges_sound colors ((u, v) ∷ es) e = (
  (
    get_or colors u 0,
    get_or colors v 0,
    get_elem?-get_or colors u (ground arith),
    get_elem?-get_or colors v (ground arith),
    (λ p. ground arith),
  ),
  check_edges_sound colors es (ground arith),
)

check_edges_complete :
    (colors : List ℕ) (es : List (ℕ × ℕ))
    → All (EdgeProper colors) es
    → check_edges (length colors) colors es ≡ true
unfolding check_edges
check_edges_complete colors [] h = refl
check_edges_complete colors ((u, v) ∷ es) ((c, d, eu, ev, ne), h) =
    let (lu, cu) = get_elem?-inside colors u c eu in
    let (lv, dv) = get_elem?-inside colors v d ev in
    ground (arith, check_edges_complete colors es h, ne)

-- `verify` accepts exactly the colorings: one color in range for each vertex, and two colors at the
-- ends of every edge.
pub verify-IsColoring_iff :
    (inst : GraphColorInstance) (colors : List ℕ)
    → (verify inst colors ≡ true) ↔ IsColoring inst colors
unfolding verify
verify-IsColoring_iff inst colors = (
  (λ e. record {
    each_vertex = ground arith;
    in_range = (colors_in_range_iff inst.num_colors colors).0 (ground arith);
    proper = check_edges_sound colors inst.edges (ground arith);
  }),
  (λ h. ground (
    arith,
    h.each_vertex,
    (colors_in_range_iff inst.num_colors colors).1 h.in_range,
    check_edges_complete colors inst.edges h.proper,
  )),
)
