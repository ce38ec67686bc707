-- ===== src/Testnet/Examples/Services.antt =====
-- The solver, the miner and the rate limiter at concrete inputs.
use npchain.Base.{
  ◌≡◌, arith, refl, true, false, none, some, [], ◌∷◌, pos, negsuc, min, ◌-◌, fractions, log2_floor,
  is_some, Returns, Option-cases, inl, inr, find, bytes_eq,
}
use npchain.Crypto.Hash.{zero_hash}
use npchain.Ponw.Sat.{SatInstance, verify, var_index, literal_value, check_clause, check_clauses}
use npchain.Testnet.Chain.{empty_chain, current_difficulty, tip_hash, height}
use npchain.Testnet.Instance.{generate_instance}
use npchain.Testnet.Instance.Range.{IsPosed}
use npchain.Testnet.Miner.{mine_block}
use npchain.Testnet.Miner.Accepted.{Mined, mine_block-Mined}
use npchain.Testnet.Node.{check_consecutive}
use npchain.Testnet.RateLimiter.{IpRecord, Clock}
use npchain.Testnet.RateLimiter.Window.{requests, allowed, allowed-InWindow}
use npchain.Testnet.Solver.{
  solve_sat, attempt_loop, flip_loop, find_target, clause_satisfied, choose_literal, flip, xrand,
  random_assignment, max_flips, greedy_loop, count_breaks,
}
use npchain.Testnet.Examples.Genesis.{miner, planted_solves}

-- (x1 or not x2) and (x2 or x1) and not x2
abbrev formula : SatInstance
formula = record {
  num_variables = 2;
  num_clauses = 3;
  k = 2;
  clauses = (pos 1 ∷ negsuc 1 ∷ []) ∷ (pos 2 ∷ pos 1 ∷ []) ∷ (negsuc 1 ∷ []) ∷ [];
}

formula-solved : solve_sat (λ attempt. false) 5 formula ≡ some (true ∷ false ∷ [])
unfolding solve_sat attempt_loop flip_loop find_target clause_satisfied choose_literal flip xrand
    random_assignment max_flips greedy_loop count_breaks verify var_index literal_value check_clause
    check_clauses
formula-solved = refl

formula-late : solve_sat (λ attempt. true) 5 formula ≡ none
unfolding solve_sat attempt_loop
formula-late = refl

formula-IsPosed : IsPosed formula
unfolding var_index
formula-IsPosed = omega arith

zero_hash-generates : is_some (generate_instance fractions 5 zero_hash 1) ≡ true
zero_hash-generates = elim (Option-cases (generate_instance fractions 5 zero_hash 1)) [
  | inl e ↦ absurd (cc (rw e at planted_solves))
  | inr (inst, e) ↦ rw e refl
]

mine_block-Mined_example :
    Returns
      (mine_block fractions 5 empty_chain miner 1_700_000_015 (λ attempt. false) 5)
      (Mined fractions 5 empty_chain)
unfolding height check_consecutive current_difficulty log2_floor tip_hash
mine_block-Mined_example =
    mine_block-Mined fractions 5 empty_chain miner 1_700_000_015 (λ attempt. false) 5 (omega arith)
      refl (omega arith) (omega arith) zero_hash-generates

-- An address with 119 requests in its window, and two more within a second.
abbrev busy : IpRecord
busy = record { request_count = 119; window_start = 0; blocked_until = 0 }

abbrev a_second_later : Clock
a_second_later = record { now = 1_000_000_000; epoch = 50; epoch_of_ban = 50 }

allowed-InWindow_example :
    allowed miner ((miner, busy) ∷ []) ((miner, a_second_later) ∷ (miner, a_second_later) ∷ [])
    ≡ min (requests miner ((miner, a_second_later) ∷ (miner, a_second_later) ∷ [])) (120 - 119)
allowed-InWindow_example =
    allowed-InWindow miner busy 50 ((miner, busy) ∷ [])
      ((miner, a_second_later) ∷ (miner, a_second_later) ∷ []) (unfold find bytes_eq in refl) refl
      (omega arith) (omega arith)
