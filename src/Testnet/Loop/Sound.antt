-- ===== src/Testnet/Loop/Sound.antt =====
-- What every order of steps keeps of the node.
use npchain.Base.{
  ℕ, ◌+◌, ◌%◌, ◌^◌, ◌<◌, ◌≤◌, ◌≡◌, ◌⊎◌, inl, inr, refl, ap, Bool, true, false, not, ◌&&◌, List, [],
  ◌∷◌, length, length-append, All, bytes_eq, bytes_eq_iff, ltb, ◌==◌, Bool-cases, Floats, arith,
}
use npchain.Testnet.Block.{Block}
use npchain.Testnet.Chain.{ChainState, height, tip_hash, append, hashed, add_block, get_balance}
use npchain.Testnet.Chain.Accepts.{Accepts-add_block}
use npchain.Testnet.Chain.Links.{IsLinked, IsLinked-height}
use npchain.Testnet.Disk.Load.{Solves, verified_by-Solves}
use npchain.Testnet.Market.{JobRequest, submit_job, post_job}
use npchain.Testnet.Market.Escrow.{
  Covered, append-Covered, post_job-Covered, submit_solution-Covered, process_height-Covered,
}
use npchain.Testnet.Node.{witness_valid, receive_block}
use npchain.Testnet.Node.Receive.{append-hashed-Chained, received_at, receive_block-cases}
use npchain.Testnet.Loop.{
  TestNode, Event, from_peer, mined, services, posted, solved, accept_mined, run_services, handle,
  run,
}

not-true : (b : Bool) → not b ≡ false → b ≡ true
not-true true h = refl
not-true false h = cc

module _ (fl : Floats) where
  -- The bounty of a job is a uint64_t.
  unfoldable pub Fits : Event fl → Type 0
  Fits (posted r) = r.bounty < 2 ^ 64
  Fits _ = Unit

module _ (fl : Floats) (fuel : ℕ) where
  -- The blocks are linked from genesis, each solves its instance, and the accounts and the live
  -- jobs hold the supply.
  pub record IsSound (n : TestNode fl) : Type 0 where
    pub linked : IsLinked n.chain
    pub solutions : All (Solves fl fuel) n.chain.blocks
    pub covered : Covered fl n.market n.chain

  -- A block is not taken, or it is the next one and is appended with its hash.
  Taken : ChainState → Block → ChainState → Type 0
  Taken c b d =
      (d ≡ c)
      ⊎ ((b.height ≡ length c.blocks)
          × (b.prev_hash ≡ tip_hash c)
          × Solves fl fuel b
          × (d ≡ append c (hashed b)))

  next_added :
      (c : ChainState) (b : Block)
      → IsLinked c
      → 0 < length c.blocks
      → length c.blocks < 2 ^ 64
      → (b.height == ((height c + 1) % 2 ^ 64)) ≡ true
      → bytes_eq b.prev_hash (tip_hash c) ≡ true
      → witness_valid fl fuel b ≡ true
      → Taken c b (add_block c b).0
  unfolding Taken
  next_added c b l some_blocks small at prev valid =
      let prev' = (bytes_eq_iff b.prev_hash (tip_hash c)).0 prev in
      let level = IsLinked-height c some_blocks l in
      let at' : b.height ≡ (height c + 1) % 2 ^ 64 = ground arith in
      inr (
        omega (arith, level, at'),
        prev',
        verified_by-Solves fl fuel b valid,
        ap (λ r. r.0) (Accepts-add_block c b (inl at', λ lt. prev')),
      )

  accept_mined-Taken :
      (c : ChainState) (b : Block) (mined_before : ℕ)
      → IsLinked c
      → 0 < length c.blocks
      → length c.blocks < 2 ^ 64
      → Taken c b (accept_mined fl fuel c b mined_before).0
  unfolding Taken accept_mined
  accept_mined-Taken c b k l some_blocks small = elim (Bool-cases (b.height == 0 && ltb 0 k)) [
    | inl e ↦ rw e (inl refl)
    | inr e1 ↦ elim (Bool-cases (not (witness_valid fl fuel b))) [
      | inl e ↦ rw (e1, e) (inl refl)
      | inr e2 ↦ elim (Bool-cases (b.height == ((height c + 1) % 2 ^ 64))) [
        | inr e ↦ rw (e1, e2, e) (inl refl)
        | inl e3 ↦ elim (Bool-cases (bytes_eq b.prev_hash (tip_hash c))) [
          | inr e ↦ rw (e1, e2, e3, e) (inl refl)
          | inl e4 ↦
              rw (e1, e2, e3, e4)
                (unfold Taken in next_added c b l some_blocks small e3 e4 (not-true _ e2))
        ]
      ]
    ]
  ]

  receive_block-Taken :
      (c : ChainState) (b : Block)
      → IsLinked c
      → 0 < length c.blocks
      → length c.blocks < 2 ^ 64
      → Taken c b (receive_block fl fuel c b).0
  unfolding Taken
  receive_block-Taken c b l some_blocks small = elim (receive_block-cases fl fuel c b) [
    | inl e ↦ inl (rw e refl)
    | inr received ↦ inr (
      received_at fl fuel c b l small (inl some_blocks) received.at,
      received.linked,
      received.solved,
      ap (λ r. r.0) (received.after b.reward),
    )
  ]

  -- A sound node with blocks, one more than before at most.
  Grown : TestNode fl → TestNode fl → Type 0
  Grown n n' =
      IsSound n'
      × (0 < length n'.chain.blocks)
      × (length n'.chain.blocks ≤ length n.chain.blocks + 1)

  Taken-Grown :
      (n : TestNode fl) (b : Block) (d : ChainState)
      → IsSound n
      → 0 < length n.chain.blocks
      → Taken n.chain b d
      → Grown n (record n { chain = d })
  unfolding Taken Grown
  Taken-Grown n b d s some_blocks (inl e) = rw e (
    record { linked = s.linked; solutions = s.solutions; covered = s.covered },
    some_blocks,
    omega arith,
  )
  Taken-Grown n b d s some_blocks (inr (at, prev, solves, e)) =
      let (links, all) =
        append-hashed-Chained fl fuel n.chain b s.linked s.solutions at prev solves in
      let longer = length-append n.chain.blocks (hashed b ∷ []) in
      rw e (
        record {
          linked = links;
          solutions = all;
          covered = append-Covered fl n.market n.chain (hashed b) s.covered;
        },
        unfold append in omega (arith, longer),
        unfold append in omega (arith, longer),
      )

  post_job-blocks :
      (n : TestNode fl) (r : JobRequest)
      → (post_job fl n.market n.chain r).1.blocks ≡ n.chain.blocks
  unfolding post_job
  post_job-blocks n r =
      elim (Bool-cases
        ((submit_job fl n.market r (height n.chain) (get_balance n.chain r.submitter)).1)) [
          | inl e ↦ rw e refl
          | inr e ↦ rw e refl
        ]

  handle-Grown :
      (n : TestNode fl) (e : Event fl)
      → IsSound n
      → Fits fl e
      → 0 < length n.chain.blocks
      → length n.chain.blocks < 2 ^ 64
      → Grown n (handle fl fuel n e)
  unfolding handle run_services Fits Grown
  handle-Grown n (from_peer b) s fits some_blocks small =
      unfold Grown in
      Taken-Grown n b _ s some_blocks (receive_block-Taken n.chain b s.linked some_blocks small)
  handle-Grown n (mined b) s fits some_blocks small =
      unfold Grown in
      Taken-Grown n b _ s some_blocks
        (accept_mined-Taken n.chain b n.blocks_mined s.linked some_blocks small)
  handle-Grown n services s fits some_blocks small = (
    record {
      linked = s.linked;
      solutions = s.solutions;
      covered = process_height-Covered fl n.market n.chain s.covered;
    },
    some_blocks,
    omega arith,
  )
  handle-Grown n (posted r) s fits some_blocks small =
      let same = post_job-blocks n r in
      (
        record {
          linked = rw same s.linked;
          solutions = rw same s.solutions;
          covered = post_job-Covered fl n.market n.chain r fits s.covered;
        },
        rw same some_blocks,
        rw same (omega arith),
      )
  handle-Grown n (solved id solver score solution) s fits some_blocks small = (
    record {
      linked = s.linked;
      solutions = s.solutions;
      covered = submit_solution-Covered fl n.market n.chain id solver score solution s.covered;
    },
    some_blocks,
    omega arith,
  )

  -- From a sound node with blocks (linked from genesis, with witnesses that solve their instances,
  -- the accounts and the bounties of the live jobs adding up to the supply in uint64_t), with room
  -- for the steps in uint64_t and bounties in it: whatever blocks peers and the miner bring,
  -- whatever jobs and solutions are posted, and whenever the services of a turn run: the node is
  -- sound after them.
  pub run-IsSound :
      (n : TestNode fl) (events : List (Event fl))
      → IsSound n
      → All (Fits fl) events
      → 0 < length n.chain.blocks
      → length n.chain.blocks + length events < 2 ^ 64
      → IsSound (run fl fuel n events)
  unfolding run Grown
  run-IsSound n [] s fits some_blocks small = s
  run-IsSound n (e ∷ es) s (fit, fits) some_blocks small =
      let (s1, some1, longer) = handle-Grown n e s fit some_blocks (omega arith) in
      run-IsSound (handle fl fuel n e) es s1 fits some1 (omega (arith, longer))
