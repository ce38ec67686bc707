-- ===== src/Testnet/Market/Escrow.antt =====
-- Balances and the bounties of live jobs together make up the supply.
use npchain.Base.{
  ℕ, ◌+◌, ◌-◌, ◌%◌, ◌^◌, ◌<◌, ◌≡◌, inl, inr, refl, ap, ◌∙◌, true, false, ◌&&◌, ◌||◌, List, [], ◌∷◌,
  ◌++◌, length, Bytes, Dict, bytes_key, find, find_or, total, total-assign, weight, weight-find_or,
  All, ltb, leb, ◌==◌, if◌then◌else◌, arith, Bool-cases, both, Option-cases, Floats,
}
use npchain.Testnet.Block.{Block}
use npchain.Testnet.Chain.{ChainState, append, add_block, get_balance, height}
use npchain.Testnet.Chain.Supply.{value, total-credit}
use npchain.Testnet.Market.{
  is_live, Solution, Job, Market, JobRequest, best_solution, new_job, submit_job, debit, post_job,
  solve_on, submit_solution, new_solution, settle, settle_jobs, process_height,
}

total-debit :
    (addr : Bytes) (amount : ℕ) (balances : Dict Bytes ℕ)
    → amount < 2 ^ 64
    → (total value (debit addr amount balances) + amount) % 2 ^ 64 ≡ total value balances % 2 ^ 64
unfolding debit
total-debit addr amount balances small =
    let old = find_or 0 addr balances in
    let law = total-assign value addr ((old + 2 ^ 64 - amount) % 2 ^ 64) balances in
    let w : weight (value addr) (find addr balances) ≡ old =
      weight-find_or (value addr) addr 0 balances refl in
    omega (arith, law, w)

module _ (fl : Floats) where
  -- The bounties of the jobs that take solutions.
  unfoldable pub escrow : List (Job fl) → ℕ
  escrow [] = 0
  escrow (j ∷ js) = (if is_live j.status then j.bounty else 0) + escrow js

  escrow-append : (xs ys : List (Job fl)) → escrow (xs ++ ys) ≡ escrow xs + escrow ys
  unfolding escrow
  escrow-append [] ys = omega arith
  escrow-append (x ∷ xs) ys = omega (arith, escrow-append xs ys)

  -- What the accounts and the live jobs hold together.
  abbrev pub held : List (Job fl) → Dict Bytes ℕ → ℕ
  held jobs balances = total value balances + escrow jobs

  solve_on-escrow :
      (id : ℕ) (sol : Solution fl) (now : ℕ) (js : List (Job fl))
      → escrow (solve_on fl id sol now js).0 ≡ escrow js
  unfolding solve_on escrow
  solve_on-escrow id sol now [] = refl
  solve_on-escrow id sol now (j ∷ js) = elim (Bool-cases (j.id == id && is_live j.status)) [
    | inl found ↦ rw found (elim (Bool-cases (ltb j.deadline_height now)) [
      | inl late ↦ rw late
      | inr in_time ↦ rw in_time (ground arith)
    ])
    | inr other ↦
        rw other
          (ap (λ n. (if is_live j.status then j.bounty else 0) + n) (solve_on-escrow id sol now js))
  ]

  settle-Held :
      (j : Job fl) (m : Market fl) (balances : Dict Bytes ℕ)
      → (is_live (settle fl j m balances).0.status ≡ false)
        × (total value (settle fl j m balances).2 % 2 ^ 64
            ≡ (total value balances + j.bounty) % 2 ^ 64)
  unfolding settle
  settle-Held j m balances = elim (Option-cases (best_solution fl j.solutions)) [
    | inl e ↦ rw (e, settle) (refl, total-credit j.submitter j.bounty balances)
    | inr (best, e) ↦ rw (e, settle) (refl, total-credit best.solver_address j.bounty balances)
  ]

  settle_jobs-Held :
      (now : ℕ) (js : List (Job fl)) (m : Market fl) (balances : Dict Bytes ℕ)
      → held (settle_jobs fl now js m balances).0 (settle_jobs fl now js m balances).2 % 2 ^ 64
        ≡ held js balances % 2 ^ 64
  unfolding settle_jobs escrow
  settle_jobs-Held now [] m balances = refl
  settle_jobs-Held now (j ∷ js) m balances =
      elim (Bool-cases (is_live j.status && leb j.deadline_height now)) [
        | inl due ↦
            let (closed, paid) = settle-Held j m balances in
            let s = settle fl j m balances in
            let rest = settle_jobs-Held now js s.1 s.2 in
            let live : is_live j.status ≡ true =
              (both (is_live j.status) (leb j.deadline_height now) due).0 in
            rw (due, closed, live) (omega (arith, rest, paid))
        | inr not_due ↦
            let rest = settle_jobs-Held now js m balances in rw not_due (omega (arith, rest))
      ]

  -- The accounts and the live jobs hold the supply, in uint64_t.
  abbrev pub Covered : Market fl → ChainState → Type 0
  Covered m c = held m.jobs c.balances % 2 ^ 64 ≡ c.total_supply % 2 ^ 64

  pub append-Covered :
      (m : Market fl) (c : ChainState) (b : Block) → Covered m c → Covered m (append c b)
  unfolding append
  append-Covered m c b h = omega (arith, total-credit b.miner_address b.reward c.balances)

  posted-Covered :
      (m : Market fl) (c : ChainState) (r : JobRequest)
      → r.bounty < 2 ^ 64
      → Covered m c
      → held
            (m.jobs ++ (new_job fl m.next_id r (height c) ∷ []))
            (debit r.submitter r.bounty c.balances)
          % 2 ^ 64
        ≡ c.total_supply % 2 ^ 64
  unfolding escrow
  posted-Covered m c r small h = omega (
    arith,
    total-debit r.submitter r.bounty c.balances small,
    escrow-append m.jobs (new_job fl m.next_id r (height c) ∷ []),
  )

  pub post_job-Covered :
      (m : Market fl) (c : ChainState) (r : JobRequest)
      → r.bounty < 2 ^ 64
      → Covered m c
      → Covered (post_job fl m c r).0 (post_job fl m c r).1
  unfolding post_job submit_job
  post_job-Covered m c r small h = elim (Bool-cases (ltb (get_balance c r.submitter) r.bounty)) [
    | inl e ↦ rw e h
    | inr e1 ↦ rw e1 (elim (Bool-cases (length r.title == 0 || ltb 200 (length r.title))) [
      | inl e ↦ rw e h
      | inr e2 ↦ rw e2 (elim (Bool-cases (ltb r.bounty 1_000_000)) [
        | inl e ↦ rw e h
        | inr e3 ↦ rw e3 (posted-Covered m c r small h)
      ])
    ])
  ]

  pub submit_solution-Covered :
      (m : Market fl) (c : ChainState) (id : ℕ) (solver : Bytes) (score : fl.Double)
      (solution : Bytes)
      → Covered m c
      → Covered (submit_solution fl m id solver score solution (height c)).0 c
  unfolding submit_solution
  submit_solution-Covered m c id solver score solution h = omega (
    arith,
    solve_on-escrow id (new_solution fl solver score solution (height c)) (height c) m.jobs,
  )

  pub process_height-Covered :
      (m : Market fl) (c : ChainState)
      → Covered m c
      → Covered
          (process_height fl m (height c) c.balances).0
          (record c { balances = (process_height fl m (height c) c.balances).1 })
  unfolding process_height
  process_height-Covered m c h = settle_jobs-Held (height c) m.jobs m c.balances ∙ h

  -- What can happen: a block, a job with a uint64_t bounty, a solution, and the end of a height.
  pub data Step : Market fl → ChainState → Market fl → ChainState → Type 0 where
    mine :
        {m : Market fl} {c : ChainState} (b : Block) {c' : ChainState}
        → c' ≡ (add_block c b).0
        → Step m c m c'
    post :
        {m : Market fl} {c : ChainState} (r : JobRequest) {m' : Market fl} {c' : ChainState}
        → r.bounty < 2 ^ 64
        → m' ≡ (post_job fl m c r).0
        → c' ≡ (post_job fl m c r).1
        → Step m c m' c'
    solve :
        {m : Market fl} {c : ChainState} (id : ℕ) (solver : Bytes) (score : fl.Double)
        (solution : Bytes) {m' : Market fl}
        → m' ≡ (submit_solution fl m id solver score solution (height c)).0
        → Step m c m' c
    tick :
        {m : Market fl} {c : ChainState} {m' : Market fl} {c' : ChainState}
        → m' ≡ (process_height fl m (height c) c.balances).0
        → c' ≡ record c { balances = (process_height fl m (height c) c.balances).1 }
        → Step m c m' c'

  pub data Reach (m0 : Market fl) (c0 : ChainState) : Market fl → ChainState → Type 0 where
    here : Reach m0 c0 m0 c0
    next :
        {m : Market fl} {c : ChainState} {m' : Market fl} {c' : ChainState}
        → Reach m0 c0 m c
        → Step m c m' c'
        → Reach m0 c0 m' c'

  -- A job that takes solutions has a deadline still to come.
  abbrev pub Pending : ℕ → Job fl → Type 0
  Pending now j = is_live j.status && leb j.deadline_height now ≡ false

  settle_jobs-Pending :
      (now : ℕ) (js : List (Job fl)) (m : Market fl) (balances : Dict Bytes ℕ)
      → All (Pending now) (settle_jobs fl now js m balances).0
  unfolding settle_jobs
  settle_jobs-Pending now [] m balances = tt
  settle_jobs-Pending now (j ∷ js) m balances =
      elim (Bool-cases (is_live j.status && leb j.deadline_height now)) [
        | inl due ↦
            let (closed, paid) = settle-Held j m balances in
            let s = settle fl j m balances in
            rw due (rw closed refl, settle_jobs-Pending now js s.1 s.2)
        | inr not_due ↦ rw not_due (not_due, settle_jobs-Pending now js m balances)
      ]

  -- After `process_height`, no job that takes solutions is at or past its deadline.
  pub process_height-Pending :
      (m : Market fl) (now : ℕ) (balances : Dict Bytes ℕ)
      → All (Pending now) (process_height fl m now balances).0.jobs
  unfolding process_height
  process_height-Pending m now balances = settle_jobs-Pending now m.jobs m balances
