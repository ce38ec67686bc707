-- ===== src/Mainnet/Node/Genesis.antt =====
-- The chain that a first node starts from.
use npchain.Base.{
  ℕ, ◌^◌, ◌<◌, ◌≡◌, refl, inl, inr, subst, Bool, true, Option-cases, some, List, Bytes, length,
  Floats, Whenever, arith, total,
}
use npchain.Crypto.Hash.{zero_hash}
use npchain.Ponw.Problem.{scaled}
use npchain.Ponw.Sat.{SatInstance, verify}
use npchain.Testnet.Chain.{empty_chain, append, tip_hash}
use npchain.Testnet.Chain.Accepts.{Accepts-add_block}
use npchain.Testnet.Disk.Load.{IsValid}
use npchain.Testnet.Instance.Range.{IsPosed, generate_instance-IsPosed}
use npchain.Testnet.Miner.{seal, posed}
use npchain.Testnet.Node.Receive.{append-hashed-IsValid}
use npchain.Testnet.Solver.Sound.{solve_sat-Sound}
use npchain.Mainnet.Chain.{generate_instance, add_block}
use npchain.Mainnet.Node.{genesis_block, create_genesis}

module _ (fl : Floats) (fuel : ℕ) where
  sealed-IsValid :
      (miner_addr : Bytes) (d now : ℕ) (inst : SatInstance) (witness : List Bool)
      → generate_instance fl fuel zero_hash d ≡ some inst
      → verify inst witness ≡ true
      → let c =
          (add_block empty_chain
            (seal inst witness (posed fl fuel (genesis_block fl fuel miner_addr d now) inst))).0 in
        IsValid fl fuel c × (0 < length c.blocks)
  unfolding append seal total
  sealed-IsValid miner_addr d now inst witness made accepted =
      let b = seal inst witness (posed fl fuel (genesis_block fl fuel miner_addr d now) inst) in
      rw (Accepts-add_block empty_chain b (inr refl, λ lt. absurd (omega arith))) (
        append-hashed-IsValid fl fuel empty_chain b
            (record { linked = tt; solved = tt; balanced = refl }) refl (unfold tip_hash in refl)
            (inst, made, accepted),
        omega arith,
      )

  -- For a difficulty whose instance has a positive number of variables below 2 ^ 31, whatever the
  -- time, the miner and the seed: the chain that a first node creates is valid and has a block.
  pub create_genesis-IsValid :
      (miner_addr : Bytes) (d now : ℕ) (expired : ℕ → Bool) (seed : ℕ)
      → 0 < scaled fl d 10 25
      → scaled fl d 10 25 < 2 ^ 31
      → Whenever
          (create_genesis fl fuel empty_chain miner_addr d now expired seed)
          (λ c. IsValid fl fuel c × (0 < length c.blocks))
  unfolding create_genesis
  create_genesis-IsValid miner_addr d now expired seed some_vars few =
      elim (Option-cases (generate_instance fl fuel zero_hash d)) [
        | inl e ↦ rw e tt
        | inr (inst, e) ↦
            let range : IsPosed inst =
              subst (λ m. Whenever m IsPosed) e
                (generate_instance-IsPosed fl fuel zero_hash d some_vars few) in
            rw e (elim (solve_sat-Sound expired seed inst range) [
              | inl failed ↦ rw failed tt
              | inr (witness, found, accepted) ↦
                  rw found (sealed-IsValid miner_addr d now inst witness e accepted)
            ])
      ]
