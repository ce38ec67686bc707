-- ===== src/Testnet/Market.antt =====
-- `MarketplaceState` of src/testnet_node.cpp, and the request that submits a job. Quality scores are
-- doubles.
pub mod Escrow
use npchain.Base.{
  ℕ, ◌+◌, ◌-◌, ◌%◌, ◌^◌, Bool, true, false, not, ◌&&◌, ◌||◌, Option, none, some, List, [], ◌∷◌,
  ◌++◌, length, take, Bytes, Dict, bytes_key, assign, find_or, ltb, leb, ◌==◌, if◌then◌else◌,
  Floats,
}
use npchain.Crypto.Hash.{sha3_256}
use npchain.Crypto.Hex.{to_hex}
use npchain.Testnet.Chain.{ChainState, credit, get_balance, height}

pub data JobStatus : Type 0 where
  opened solving completed expired cancelled : JobStatus

pub data JobType : Type 0 where
  routing scheduling packing sat_custom ai_verify general : JobType

-- Which jobs take solutions.
abbrev pub is_live : JobStatus → Bool
is_live JobStatus.opened = true
is_live JobStatus.solving = true
is_live _ = false

-- The request of `submit_job`.
pub record JobRequest : Type 0 where
  pub submitter : Bytes
  pub type : JobType
  pub title : Bytes
  pub description : Bytes
  pub problem_data : Bytes
  pub problem_size : ℕ
  pub optimize : Bytes
  pub bounty : ℕ
  pub deadline_blocks : ℕ

-- balances[addr] -= amount
unfoldable pub debit : Bytes → ℕ → Dict Bytes ℕ → Dict Bytes ℕ
debit addr amount balances =
    assign addr ((find_or 0 addr balances + 2 ^ 64 - amount) % 2 ^ 64) balances

module _ (fl : Floats) where
  open fl use {Double, less}

  pub record Solution : Type 0 where
    pub solver_address : Bytes
    pub submit_height : ℕ
    pub quality_score : Double
    pub solution_hash : Bytes
    pub solution_data : Bytes

  pub record Job : Type 0 where
    pub id : ℕ
    pub type : JobType
    pub status : JobStatus
    pub title : Bytes
    pub description : Bytes
    pub submitter : Bytes
    pub problem_data : Bytes
    pub problem_size : ℕ
    pub optimize : Bytes
    pub bounty : ℕ
    pub submit_height : ℕ
    pub deadline_height : ℕ
    pub solutions : List Solution
    pub winner_address : Bytes

  pub record Market : Type 0 where
    pub jobs : List Job
    pub next_id : ℕ
    pub total_bounties_paid : ℕ
    pub total_jobs_completed : ℕ

  abbrev pub empty_market : Market
  empty_market = record {
    jobs = [];
    next_id = 1;
    total_bounties_paid = 0;
    total_jobs_completed = 0;
  }

  -- The loop of `best_solution`: a later solution wins only if its score is less.
  unfoldable pub best_of : Solution → List Solution → Solution
  best_of best [] = best
  best_of best (s ∷ rest) =
      best_of (if less s.quality_score best.quality_score then s else best) rest

  unfoldable pub best_solution : List Solution → Option Solution
  unfolding best_of
  best_solution [] = none
  best_solution (s ∷ rest) = some (best_of s (s ∷ rest))

  abbrev pub new_job : ℕ → JobRequest → ℕ → Job
  new_job id r current_height = record {
    id = id;
    type = r.type;
    status = JobStatus.opened;
    title = r.title;
    description = r.description;
    submitter = r.submitter;
    problem_data = r.problem_data;
    problem_size = r.problem_size;
    optimize = r.optimize;
    bounty = r.bounty;
    submit_height = current_height;
    deadline_height = (current_height + r.deadline_blocks) % 2 ^ 64;
    solutions = [];
    winner_address = [];
  }

  unfoldable pub submit_job : Market → JobRequest → ℕ → ℕ → Market × Bool
  submit_job m r current_height submitter_balance =
      if ltb submitter_balance r.bounty
      then (m, false)
      else if length r.title == 0 || ltb 200 (length r.title)
      then (m, false)
      else if ltb r.bounty 1_000_000
      then (m, false)
      else (
        record m {
          jobs = m.jobs ++ (new_job m.next_id r current_height ∷ []);
          next_id = (m.next_id + 1) % 2 ^ 32;
        },
        true,
      )

  -- The handler of POST /api/v1/marketplace/submit: the bounty is taken from the submitter.
  unfoldable pub post_job : Market → ChainState → JobRequest → Market × ChainState
  post_job m c r =
      let (m', done) = submit_job m r (height c) (get_balance c r.submitter) in
      if done then (m', record c { balances = debit r.submitter r.bounty c.balances }) else (m, c)

  abbrev pub new_solution : Bytes → Double → Bytes → ℕ → Solution
  new_solution solver score solution_data current_height = record {
    solver_address = solver;
    submit_height = current_height;
    quality_score = score;
    solution_hash = take 16 (to_hex (sha3_256 solution_data));
    solution_data = solution_data;
  }

  unfoldable pub solve_on : ℕ → Solution → ℕ → List Job → List Job × Bool
  solve_on job_id sol current_height [] = ([], false)
  solve_on job_id sol current_height (j ∷ js) =
      let (rest, done) = solve_on job_id sol current_height js in
      if j.id == job_id && is_live j.status
      then if ltb j.deadline_height current_height then (j ∷ js, false) else (
        record j { solutions = j.solutions ++ (sol ∷ []); status = JobStatus.solving } ∷ js,
        true,
      )
      else (j ∷ rest, done)

  unfoldable pub submit_solution : Market → ℕ → Bytes → Double → Bytes → ℕ → Market × Bool
  submit_solution m job_id solver score solution_data current_height =
      let sol = new_solution solver score solution_data current_height in
      let (jobs, done) = solve_on job_id sol current_height m.jobs in
      (record m { jobs = jobs }, done)

  -- One job whose deadline has passed: a refund, or the bounty for the best solution.
  unfoldable pub settle : Job → Market → Dict Bytes ℕ → Job × Market × Dict Bytes ℕ
  settle j m balances = elim (best_solution j.solutions) [
    | none ↦ (record j { status = JobStatus.expired }, m, credit j.submitter j.bounty balances)
    | some best ↦ (
      record j { status = JobStatus.completed; winner_address = best.solver_address },
      record m {
        total_bounties_paid = (m.total_bounties_paid + j.bounty) % 2 ^ 64;
        total_jobs_completed = (m.total_jobs_completed + 1) % 2 ^ 64;
      },
      credit best.solver_address j.bounty balances,
    )
  ]

  -- The loop over the jobs: the counters of the market are carried along.
  unfoldable pub settle_jobs :
      ℕ → List Job → Market → Dict Bytes ℕ → List Job × Market × Dict Bytes ℕ
  settle_jobs height [] m balances = ([], m, balances)
  settle_jobs height (j ∷ js) m balances =
      let due = is_live j.status && leb j.deadline_height height in
      let (j', m', balances') : Job × Market × Dict Bytes ℕ =
        if due then settle j m balances else (j, m, balances) in
      let (js', m'', balances'') = settle_jobs height js m' balances' in (j' ∷ js', m'', balances'')

  unfoldable pub process_height : Market → ℕ → Dict Bytes ℕ → Market × Dict Bytes ℕ
  process_height m height balances =
      let (jobs, m', balances') = settle_jobs height m.jobs m balances in
      (record m' { jobs = jobs }, balances')
