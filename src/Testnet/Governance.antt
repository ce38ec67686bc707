-- ===== src/Testnet/Governance.antt =====
-- `GovernanceState` of src/testnet_node.cpp: proposals, votes weighted by balance, and their ends.
pub mod Tally
pub mod Status
pub mod Votes
use npchain.Base.{
  ℕ, ◌+◌, ◌-◌, ◌%◌, ◌^◌, Bool, true, false, not, ◌&&◌, ◌||◌, Option, none, some, List, [], ◌∷◌,
  ◌++◌, map, length, Bytes, Dict, bytes_key, find, assign, ltb, leb, ◌==◌, if◌then◌else◌, Floats,
}

pub data ProposalType : Type 0 where
  param_change crypto_upgrade fee_change emission_change general : ProposalType

pub data ProposalStatus : Type 0 where
  active passed rejected activated expired : ProposalStatus

pub data VoteChoice : Type 0 where
  approve reject abstain : VoteChoice

pub record Proposal : Type 0 where
  pub id : ℕ
  pub type : ProposalType
  pub status : ProposalStatus
  pub title : Bytes
  pub description : Bytes
  pub author_address : Bytes
  pub submit_height : ℕ
  pub vote_end_height : ℕ
  pub activation_height : ℕ
  pub param_key : Bytes
  pub param_value : Bytes
  pub votes_approve : ℕ
  pub votes_reject : ℕ
  pub votes_abstain : ℕ
  pub voters : Dict Bytes VoteChoice

pub record GovernanceState : Type 0 where
  pub proposals : List Proposal
  pub next_id : ℕ

abbrev pub is_active : ProposalStatus → Bool
is_active ProposalStatus.active = true
is_active _ = false

abbrev pub is_passed : ProposalStatus → Bool
is_passed ProposalStatus.passed = true
is_passed _ = false

abbrev pub min_proposer_balance : ℕ
min_proposer_balance = 47_564_688_000

-- The request of `submit_proposal`.
pub record Submission : Type 0 where
  pub author : Bytes
  pub type : ProposalType
  pub title : Bytes
  pub description : Bytes
  pub param_key : Bytes
  pub param_value : Bytes

abbrev pub new_proposal : ℕ → Submission → ℕ → Proposal
new_proposal id r current_height = record {
  id = id;
  type = r.type;
  status = ProposalStatus.active;
  title = r.title;
  description = r.description;
  author_address = r.author;
  submit_height = current_height;
  vote_end_height = (current_height + 240) % 2 ^ 64;
  activation_height = (current_height + 240 + 120) % 2 ^ 64;
  param_key = r.param_key;
  param_value = r.param_value;
  votes_approve = 0;
  votes_reject = 0;
  votes_abstain = 0;
  voters = [];
}

unfoldable pub submit_proposal : GovernanceState → Submission → ℕ → ℕ → GovernanceState × Bool
submit_proposal g r current_height author_balance =
    if ltb author_balance min_proposer_balance
    then (g, false)
    else if length r.title == 0 || ltb 200 (length r.title)
    then (g, false)
    else if length r.description == 0 || ltb 5000 (length r.description)
    then (g, false)
    else (
      record {
        proposals = g.proposals ++ (new_proposal g.next_id r current_height ∷ []);
        next_id = (g.next_id + 1) % 2 ^ 32;
      },
      true,
    )

-- p.votes_… -= amount, by choice, in uint64_t
unfoldable pub undo_vote : VoteChoice → ℕ → Proposal → Proposal
undo_vote VoteChoice.approve amount p = record p {
  votes_approve = (p.votes_approve + 2 ^ 64 - amount) % 2 ^ 64;
}
undo_vote VoteChoice.reject amount p = record p {
  votes_reject = (p.votes_reject + 2 ^ 64 - amount) % 2 ^ 64;
}
undo_vote VoteChoice.abstain amount p = record p {
  votes_abstain = (p.votes_abstain + 2 ^ 64 - amount) % 2 ^ 64;
}

unfoldable pub apply_vote : VoteChoice → ℕ → Proposal → Proposal
apply_vote VoteChoice.approve amount p = record p {
  votes_approve = (p.votes_approve + amount) % 2 ^ 64;
}
apply_vote VoteChoice.reject amount p = record p {
  votes_reject = (p.votes_reject + amount) % 2 ^ 64;
}
apply_vote VoteChoice.abstain amount p = record p {
  votes_abstain = (p.votes_abstain + amount) % 2 ^ 64;
}

unfoldable pub undo_previous : Option VoteChoice → ℕ → Proposal → Proposal
unfolding undo_vote
undo_previous none amount p = p
undo_previous (some before) amount p = undo_vote before amount p

-- The vote itself: a vote that the address has cast before is undone with today's balance.
unfoldable pub record_vote : Bytes → VoteChoice → ℕ → Proposal → Proposal
record_vote voter choice balance p =
    let undone = undo_previous (find voter p.voters) balance p in
    apply_vote choice balance (record undone { voters = assign voter choice p.voters })

-- The loop over the proposals stops at the first active one with the id.
unfoldable pub vote_on : ℕ → Bytes → VoteChoice → ℕ → ℕ → List Proposal → List Proposal × Bool
vote_on proposal_id voter choice balance height [] = ([], false)
vote_on proposal_id voter choice balance height (p ∷ ps) =
    let (rest, done) = vote_on proposal_id voter choice balance height ps in
    if p.id == proposal_id && is_active p.status
    then if ltb p.vote_end_height height || balance == 0
      then (p ∷ ps, false)
      else (record_vote voter choice balance p ∷ ps, true)
    else (p ∷ rest, done)

unfoldable pub cast_vote : GovernanceState → ℕ → Bytes → VoteChoice → ℕ → ℕ → GovernanceState × Bool
unfolding vote_on
cast_vote g proposal_id voter choice balance height =
    let (proposals, done) = vote_on proposal_id voter choice balance height g.proposals in
    (record g { proposals = proposals }, done)

-- if (p.status == PASSED && height >= p.activation_height) p.status = ACTIVATED;
unfoldable pub activate : ℕ → Proposal → Proposal
activate height p =
    if is_passed p.status && leb p.activation_height height
    then record p { status = ProposalStatus.activated }
    else p

module _ (fl : Floats) where
  open fl use {Double, of_uint, literal, div, at_most, less}

  unfoldable pub approval_rate : Proposal → Double
  approval_rate p =
      let voted = (p.votes_approve + p.votes_reject) % 2 ^ 64 in
      if ltb 0 voted then div (of_uint p.votes_approve) (of_uint voted) else literal 0 1

  unfoldable pub participation_rate : Proposal → ℕ → Double
  participation_rate p total_supply =
      let voted = (p.votes_approve + p.votes_reject + p.votes_abstain) % 2 ^ 64 in
      if ltb 0 total_supply then div (of_uint voted) (of_uint total_supply) else literal 0 1

  unfoldable pub outcome : Proposal → ℕ → ProposalStatus
  outcome p total_supply =
      let enough = at_most (literal 75 2) (approval_rate p) in
      let quorum = at_most (literal 70 2) (participation_rate p total_supply) in
      if enough && quorum
      then ProposalStatus.passed
      else if less (participation_rate p total_supply) (literal 70 2)
      then ProposalStatus.expired
      else ProposalStatus.rejected

  unfoldable pub close : ℕ → ℕ → Proposal → Proposal
  unfolding outcome
  close height total_supply p =
      if is_active p.status && leb p.vote_end_height height
      then record p { status = outcome p total_supply }
      else p

  -- The two loops: votes end, then proposals that have passed are activated.
  unfoldable pub process_height : GovernanceState → ℕ → ℕ → GovernanceState
  process_height g height total_supply = record g {
    proposals = map (activate height) (map (close height total_supply) g.proposals);
  }

proposal_with : ℕ → List Proposal → Option Proposal
proposal_with id [] = none
proposal_with id (p ∷ ps) = let rest = proposal_with id ps in if p.id == id then some p else rest

unfoldable pub get_proposal : GovernanceState → ℕ → Option Proposal
unfolding proposal_with
get_proposal g id = proposal_with id g.proposals
