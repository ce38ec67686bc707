-- ===== src/Ponw/Witness/Solution.antt =====
-- `WitnessVerifier::verify` decides whether a witness solves an instance.
use npchain.Base.{
  ℕ, ℤ, [], ◌∷◌, ◌^◌, ◌<◌, ◌≡◌, ◌↔◌, true, Option, none, some, List, length, All, arith, IsInt32,
}
use npchain.Ponw.Sat.Verify.{Names, Satisfies, verify-Satisfies, Satisfies-verify}
use npchain.Ponw.SubsetSum.Verify.{IsWitness, verify-IsWitness_iff}
use npchain.Ponw.GraphColor.Verify.{IsColoring, verify-IsColoring_iff}
use npchain.Ponw.Hamiltonian.Verify.{IsHamiltonian, Ends32, verify-IsHamiltonian_iff}
use npchain.Ponw.Witness.{NpInstance, DecodedWitness, verify_decoded, verify_witness}

-- The witness is one for the instance's kind of problem, and a solution of it.
abbrev pub SolvedBy : NpInstance → DecodedWitness → Type 0
SolvedBy (NpInstance.sat inst) (DecodedWitness.variable_assignments a) =
    (length a ≡ inst.num_variables) × Satisfies a inst.clauses
SolvedBy (NpInstance.subset_sum inst) (DecodedWitness.selected_indices is) = IsWitness inst is
SolvedBy (NpInstance.graph_color inst) (DecodedWitness.vertex_colors cs) = IsColoring inst cs
SolvedBy (NpInstance.hamiltonian inst) (DecodedWitness.path vs) = IsHamiltonian inst vs
SolvedBy _ _ = ⊥

abbrev pub Solution : NpInstance → Option DecodedWitness → Type 0
Solution inst none = ⊥
Solution inst (some w) = SolvedBy inst w

-- The literals of a SAT instance name its variables, fewer than 2 ^ 31; the vertices of a
-- Hamiltonian instance are values of uint32_t.
abbrev pub IsProper : NpInstance → Type 0
IsProper (NpInstance.sat inst) =
    (inst.num_variables < 2 ^ 31) × All (All (Names inst.num_variables)) inst.clauses
IsProper (NpInstance.subset_sum inst) = Unit {0}
IsProper (NpInstance.graph_color inst) = Unit {0}
IsProper (NpInstance.hamiltonian inst) = (inst.num_vertices < 2 ^ 32) × All Ends32 inst.edges

Names-IsInt32 : (n : ℕ) (c : List ℤ) → n < 2 ^ 31 → All (Names n) c → All IsInt32 c
Names-IsInt32 n [] b h = tt
Names-IsInt32 n (l ∷ c) b (first, h) = (omega arith, Names-IsInt32 n c b h)

clauses-IsInt32 :
    (n : ℕ) (cs : List (List ℤ)) → n < 2 ^ 31 → All (All (Names n)) cs → All (All IsInt32) cs
clauses-IsInt32 n [] b h = tt
clauses-IsInt32 n (c ∷ cs) b (first, h) = (Names-IsInt32 n c b first, clauses-IsInt32 n cs b h)

verify_decoded-SolvedBy_iff :
    (inst : NpInstance) (w : DecodedWitness)
    → IsProper inst
    → (verify_decoded inst w ≡ true) ↔ SolvedBy inst w
unfolding verify_decoded
verify_decoded-SolvedBy_iff (NpInstance.sat i) (DecodedWitness.variable_assignments a) (b, names) =
    (
      verify-Satisfies i a (omega arith) (clauses-IsInt32 i.num_variables i.clauses b names),
      (λ (len, h). Satisfies-verify i a b names len h),
    )
verify_decoded-SolvedBy_iff (NpInstance.sat i) (DecodedWitness.selected_indices is) p =
    ((λ e. cc), (λ h. absurd h))
verify_decoded-SolvedBy_iff (NpInstance.sat i) (DecodedWitness.vertex_colors cs) p =
    ((λ e. cc), (λ h. absurd h))
verify_decoded-SolvedBy_iff (NpInstance.sat i) (DecodedWitness.path vs) p =
    ((λ e. cc), (λ h. absurd h))
verify_decoded-SolvedBy_iff (NpInstance.subset_sum i) (DecodedWitness.variable_assignments a) p =
    ((λ e. cc), (λ h. absurd h))
verify_decoded-SolvedBy_iff (NpInstance.subset_sum i) (DecodedWitness.selected_indices is) p =
    verify-IsWitness_iff i is
verify_decoded-SolvedBy_iff (NpInstance.subset_sum i) (DecodedWitness.vertex_colors cs) p =
    ((λ e. cc), (λ h. absurd h))
verify_decoded-SolvedBy_iff (NpInstance.subset_sum i) (DecodedWitness.path vs) p =
    ((λ e. cc), (λ h. absurd h))
verify_decoded-SolvedBy_iff (NpInstance.graph_color i) (DecodedWitness.variable_assignments a) p =
    ((λ e. cc), (λ h. absurd h))
verify_decoded-SolvedBy_iff (NpInstance.graph_color i) (DecodedWitness.selected_indices is) p =
    ((λ e. cc), (λ h. absurd h))
verify_decoded-SolvedBy_iff (NpInstance.graph_color i) (DecodedWitness.vertex_colors cs) p =
    verify-IsColoring_iff i cs
verify_decoded-SolvedBy_iff (NpInstance.graph_color i) (DecodedWitness.path vs) p =
    ((λ e. cc), (λ h. absurd h))
verify_decoded-SolvedBy_iff (NpInstance.hamiltonian i) (DecodedWitness.variable_assignments a) p =
    ((λ e. cc), (λ h. absurd h))
verify_decoded-SolvedBy_iff (NpInstance.hamiltonian i) (DecodedWitness.selected_indices is) p =
    ((λ e. cc), (λ h. absurd h))
verify_decoded-SolvedBy_iff (NpInstance.hamiltonian i) (DecodedWitness.vertex_colors cs) p =
    ((λ e. cc), (λ h. absurd h))
verify_decoded-SolvedBy_iff (NpInstance.hamiltonian i) (DecodedWitness.path vs) (b, ends) =
    verify-IsHamiltonian_iff i vs b ends

-- For a SAT instance whose literals name its variables, fewer than 2 ^ 31, for a Hamiltonian instance
-- over uint32_t, and for every instance of the two other problems: exactly the witnesses that decode
-- to one of the instance's own kind, and solve it, are accepted.
pub verify_witness-Solution_iff :
    (inst : NpInstance) (decoded : Option DecodedWitness)
    → IsProper inst
    → (verify_witness inst decoded ≡ true) ↔ Solution inst decoded
unfolding verify_witness
verify_witness-Solution_iff inst none p = ((λ e. cc), (λ h. absurd h))
verify_witness-Solution_iff inst (some w) p = verify_decoded-SolvedBy_iff inst w p
