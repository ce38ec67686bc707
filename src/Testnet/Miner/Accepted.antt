-- ===== src/Testnet/Miner/Accepted.antt =====
-- Peers accept what the miner makes.
use npchain.Base.{
  ℕ, ◌+◌, ◌%◌, ◌^◌, ◌<◌, ◌≡◌, ◌⊎◌, inl, inr, refl, ap, ◌∙◌, Bool, true, false, some, Bytes, is_some,
  bytes_eq, bytes_eq_refl, ◌==◌, Floats, Returns, Whenever, Option-cases, arith, List, subst, sym,
}
use npchain.Ponw.Problem.{scaled}
use npchain.Ponw.Sat.{SatInstance, verify}
use npchain.Testnet.Block.{Block, compute_hash, serialize}
use npchain.Testnet.Chain.{ChainState, height, tip_hash, append, hashed, current_difficulty}
use npchain.Testnet.Chain.Accepts.{Accepts-add_block}
use npchain.Testnet.Disk.{verified_by}
use npchain.Testnet.Instance.{generate_instance}
use npchain.Testnet.Instance.Range.{IsPosed, generate_instance-IsPosed}
use npchain.Testnet.Miner.{seal, finish, posed, candidate, mine_block}
use npchain.Testnet.Node.{
  check_consecutive, check_stake, witness_valid, receive_next, receive_block,
}
use npchain.Testnet.Solver.Sound.{solve_sat-Sound}

hashed-hashed : (b : Block) → hashed (hashed b) ≡ hashed b
unfolding compute_hash serialize
hashed-hashed b = refl

module _ (fl : Floats) (fuel : ℕ) where
  receive_next-accepts :
      (c : ChainState) (b : Block)
      → height c + 1 < 2 ^ 64
      → b.height ≡ height c + 1
      → b.prev_hash ≡ tip_hash c
      → check_consecutive c.blocks b.miner_address ≡ true
      → witness_valid fl fuel b ≡ true
      → receive_block fl fuel c b ≡ (append c (hashed b), true)
  unfolding receive_block receive_next check_stake
  receive_next-accepts c b small at prev alone valid =
      let nonzero : (b.height == 0) ≡ false = ground arith in
      let same_height : (b.height == ((height c + 1) % 2 ^ 64)) ≡ true = ground arith in
      let same_prev : bytes_eq b.prev_hash (tip_hash c) ≡ true =
        rw prev (bytes_eq_refl (tip_hash c)) in
      rw (nonzero, same_height, same_prev, alone, valid)
        (Accepts-add_block c b (inl (omega arith), λ lt. prev))

  -- What the miner gives to its peers: a block of height 0 for a search that gave up, or one that
  -- carries its hash and that the callback of a peer with the same chain appends.
  abbrev pub Mined : ChainState → Block → Type 0
  Mined c b =
      (b.height ≡ 0)
      ⊎ ((b.hash ≡ compute_hash b) × (receive_block fl fuel c b ≡ (append c b, true)))

  sealed-Mined :
      (c : ChainState) (miner_addr : Bytes) (now : ℕ) (inst : SatInstance) (witness : List Bool)
      → height c + 1 < 2 ^ 64
      → check_consecutive c.blocks miner_addr ≡ true
      → generate_instance fl fuel (tip_hash c) (current_difficulty fl c) ≡ some inst
      → verify inst witness ≡ true
      → Mined c (seal inst witness (posed fl fuel (candidate fl fuel c miner_addr now) inst))
  unfolding seal candidate
  sealed-Mined c miner_addr now inst witness small alone generated accepted =
      let b = seal inst witness (posed fl fuel (candidate fl fuel c miner_addr now) inst) in
      inr (
        unfold compute_hash serialize in refl,
        receive_next-accepts c b small (omega arith) refl alone
              (subst (λ m. verified_by m witness ≡ true) (sym generated) accepted)
            ∙ ap (λ d. (append c d, true)) (hashed-hashed _),
      )

  -- A miner whose height fits in uint64_t, who has not mined the last 50 blocks, and whose instance
  -- is generated with a positive number of variables below 2 ^ 31: whatever the time and the seed,
  -- mine_block returns (no assert fails), and what it returns is a block of height 0 or a block with
  -- its own hash that a peer with the same chain appends.
  pub mine_block-Mined :
      (c : ChainState) (miner_addr : Bytes) (now : ℕ) (expired : ℕ → Bool) (seed : ℕ)
      → height c + 1 < 2 ^ 64
      → check_consecutive c.blocks miner_addr ≡ true
      → 0 < scaled fl (current_difficulty fl c) 10 25
      → scaled fl (current_difficulty fl c) 10 25 < 2 ^ 31
      → is_some (generate_instance fl fuel (tip_hash c) (current_difficulty fl c)) ≡ true
      → Returns (mine_block fl fuel c miner_addr now expired seed) (Mined c)
  unfolding mine_block
  mine_block-Mined c miner_addr now expired seed small alone some_vars few generated =
      elim (Option-cases (generate_instance fl fuel (tip_hash c) (current_difficulty fl c))) [
        | inl e ↦ absurd (cc (rw e at generated))
        | inr (inst, e) ↦
            let range : IsPosed inst =
              subst (λ m. Whenever m IsPosed) e
                (generate_instance-IsPosed fl fuel (tip_hash c) (current_difficulty fl c) some_vars
                  few) in
            let block = posed fl fuel (candidate fl fuel c miner_addr now) inst in
            elim (solve_sat-Sound expired seed inst range) [
              | inl failed ↦
                  unfold candidate finish in
                  rw e
                    (subst (λ f. Returns (finish inst block f) (Mined c)) (sym failed) (inl refl))
              | inr (witness, found, accepted) ↦
                  unfold candidate finish in
                  rw e (
                    subst (λ f. Returns (finish inst block f) (Mined c)) (sym found)
                      (rw accepted
                        (sealed-Mined c miner_addr now inst witness small alone e accepted)))
            ]
      ]
