-- ===== src/Testnet/Examples/Civic.antt =====
-- The theorems about governance, migration and the marketplace at small states.
use npchain.Base.{
  ℕ, ◌+◌, ◌-◌, ◌^◌, ◌≡◌, arith, refl, true, [], ◌∷◌, All, Bytes, bytes_key, find, total, fractions,
  bytes_eq,
}
use npchain.Testnet.Governance.{
  VoteChoice, ProposalType, Proposal, GovernanceState, Submission, new_proposal, record_vote,
  cast_vote, process_height,
}
use npchain.Testnet.Governance.Tally.{tally, Tallied, cast_vote-Tallied, record_vote_wraps}
use npchain.Testnet.Governance.Status.{IsSound, process_height-IsSound}
use npchain.Testnet.Governance.Votes.{cast_vote-IsSound}
use npchain.Testnet.Migration.{BalanceSnapshot, MigrationState}
use npchain.Testnet.Market.{
  JobRequest, JobType, empty_market, post_job, process_height as market_height,
}
use npchain.Testnet.Market.Escrow.{Pending, process_height-Pending}
use npchain.Testnet.Examples.Genesis.{miner, one_block}

abbrev submission : Submission
submission = record {
  author = miner;
  type = ProposalType.general;
  title = b'a' ∷ [];
  description = b'b' ∷ [];
  param_key = [];
  param_value = [];
}

-- One proposal, for which the miner has voted with 5.
abbrev voted : Proposal
voted = record (new_proposal 1 submission 0) {
  votes_approve = 5;
  voters = (miner, VoteChoice.approve) ∷ [];
}

abbrev one_proposal : GovernanceState
one_proposal = record { proposals = voted ∷ []; next_id = 2 }

abbrev five : Bytes → ℕ
five addr = 5

voted-Tallied : Tallied five voted
unfolding total
voted-Tallied VoteChoice.approve = refl
voted-Tallied VoteChoice.reject = refl
voted-Tallied VoteChoice.abstain = refl

cast_vote-Tallied_example :
    All
      (Tallied five)
      (cast_vote one_proposal 1 miner VoteChoice.reject (five miner) 10).0.proposals
cast_vote-Tallied_example =
    cast_vote-Tallied five one_proposal 1 miner VoteChoice.reject 10 (omega arith)
      (voted-Tallied, tt)

record_vote_wraps_example :
    tally VoteChoice.approve (record_vote miner VoteChoice.reject 8 voted)
    ≡ tally VoteChoice.approve voted + 2 ^ 64 - 8
record_vote_wraps_example =
    record_vote_wraps miner VoteChoice.approve VoteChoice.reject 8 voted
      (unfold find bytes_eq in refl) (λ e. cc) (omega arith) (omega arith)

one_proposal-IsSound : IsSound fractions one_proposal
one_proposal-IsSound = record { numbered = (refl, tt); next = refl; approved = (tt, tt) }

process_height-IsSound_example : IsSound fractions (process_height fractions one_proposal 400 5)
process_height-IsSound_example =
    process_height-IsSound fractions one_proposal 400 5 one_proposal-IsSound

cast_vote-IsSound_example :
    IsSound fractions (cast_vote one_proposal 1 miner VoteChoice.reject 5 10).0
cast_vote-IsSound_example =
    cast_vote-IsSound fractions one_proposal 1 miner VoteChoice.reject 5 10 one_proposal-IsSound

abbrev wallet : BalanceSnapshot
wallet = record {
  address = miner;
  testnet_balance = 50_000_000_000;
  mainnet_balance = 50_000_000;
  blocks_mined = 1;
  proof = [];
  kyc_verified = true;
  kyc_token = [];
}

abbrev migration : MigrationState
migration = record {
  snapshot_taken = true;
  snapshot_height = 1;
  snapshot_timestamp = 0;
  merkle_root = [];
  snapshots = wallet ∷ [];
  total_testnet_supply = 0;
  total_mainnet_allocation = 0;
  eligible_wallets = 1;
  kyc_verified_count = 1;
}

abbrev pub request : JobRequest
request = record {
  submitter = miner;
  type = JobType.routing;
  title = b'j' ∷ [];
  description = [];
  problem_data = [];
  problem_size = 3;
  optimize = [];
  bounty = 2_000_000;
  deadline_blocks = 10;
}

process_height-Pending_example :
    All
      (Pending fractions 9)
      (market_height fractions
        (post_job fractions (empty_market fractions) one_block request).0
        9
        []).0.jobs
process_height-Pending_example =
    process_height-Pending fractions
      (post_job fractions (empty_market fractions) one_block request).0 9 []
