-- ===== src/Mainnet/Examples.antt =====
-- The theorems about the node of the main network at the chain of one block.
use npchain.Base.{log2_floor, ◌<◌, arith, fractions, [], ◌∷◌, length, Whenever, false}
use npchain.Testnet.Chain.{empty_chain, append}
use npchain.Testnet.Disk.Load.{IsValid}
use npchain.Testnet.Examples.Genesis.{genesis, one_block, one_block-IsValid}
use npchain.Mainnet.Node.{from_peer, from_miner, run, create_genesis}
use npchain.Mainnet.Node.Run.{run-IsValid}
use npchain.Mainnet.Node.Genesis.{create_genesis-IsValid}

run-IsValid_example : IsValid fractions 5 (
    run fractions 5 one_block
      (from_peer genesis ∷ from_miner (record genesis { height = 1 }) 1 ∷ []))
unfolding append
run-IsValid_example =
    run-IsValid fractions 5 one_block
      (from_peer genesis ∷ from_miner (record genesis { height = 1 }) 1 ∷ []) one_block-IsValid
      (omega arith) (omega arith)

create_genesis-IsValid_example :
    Whenever
      (create_genesis fractions 5 empty_chain (99 ∷ []) 1 1700000000 (λ attempt. false) 7)
      (λ c. IsValid fractions 5 c × (0 < length c.blocks))
unfolding log2_floor
create_genesis-IsValid_example =
    create_genesis-IsValid fractions 5 (99 ∷ []) 1 1700000000 (λ attempt. false) 7 (omega arith)
      (omega arith)
