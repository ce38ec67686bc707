-- ===== src/Ponw/Witness.antt =====
-- `NPInstance`, the decoded witnesses of include/core/block.hpp, and `WitnessVerifier::verify`. How a
-- witness is decoded is not in the repository: what it decodes to is an argument.
pub mod Solution
use npchain.Base.{ℕ, Bool, false, Option, none, some, List}
use npchain.Ponw.Sat
use npchain.Ponw.Sat.{SatInstance}
use npchain.Ponw.SubsetSum
use npchain.Ponw.SubsetSum.{SubsetSumInstance}
use npchain.Ponw.GraphColor
use npchain.Ponw.GraphColor.{GraphColorInstance}
use npchain.Ponw.Hamiltonian
use npchain.Ponw.Hamiltonian.{HamiltonianInstance}

pub data NpInstance : Type 0 where
  sat : SatInstance → NpInstance
  subset_sum : SubsetSumInstance → NpInstance
  graph_color : GraphColorInstance → NpInstance
  hamiltonian : HamiltonianInstance → NpInstance

pub data DecodedWitness : Type 0 where
  variable_assignments : List Bool → DecodedWitness
  selected_indices : List ℕ → DecodedWitness
  vertex_colors : List ℕ → DecodedWitness
  path : List ℕ → DecodedWitness

unfoldable pub verify_decoded : NpInstance → DecodedWitness → Bool
verify_decoded (NpInstance.sat inst) (DecodedWitness.variable_assignments a) = Sat.verify inst a
verify_decoded (NpInstance.subset_sum inst) (DecodedWitness.selected_indices is) =
    SubsetSum.verify inst is
verify_decoded (NpInstance.graph_color inst) (DecodedWitness.vertex_colors cs) =
    GraphColor.verify inst cs
verify_decoded (NpInstance.hamiltonian inst) (DecodedWitness.path vs) = Hamiltonian.verify inst vs
verify_decoded _ _ = false

-- `none` is a witness that does not decode.
unfoldable pub verify_witness : NpInstance → Option DecodedWitness → Bool
verify_witness instance_ none = false
verify_witness instance_ (some w) = verify_decoded instance_ w
