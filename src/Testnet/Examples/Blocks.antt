-- ===== src/Testnet/Examples/Blocks.antt =====
-- The theorems about blocks and the chain at the chain of one genesis block.
use npchain.Base.{
  ◌+◌, ◌^◌, ◌≡◌, arith, bytes_eq, ◌%◌, inl, refl, ap, true, some, replicate, fractions,
}
use npchain.Testnet.Block.{Block}
use npchain.Testnet.Block.Wire.{block_to_wire, wire_to_block}
use npchain.Testnet.Block.Wire.RoundTrip.{wire_to_block-block_to_wire}
use npchain.Testnet.Chain.{empty_chain, height, hashed, append, add_block}
use npchain.Testnet.Chain.Links.{IsLinked, add_block-genesis_again}
use npchain.Testnet.Disk.{save_to_disk, load_from_disk}
use npchain.Testnet.Disk.Load.{IsValid, load_from_disk-IsValid}
use npchain.Testnet.Disk.RoundTrip.{load_from_disk-save_to_disk}
use npchain.Testnet.Node.{receive_block, receive_genesis}
use npchain.Testnet.Node.Receive.{with_reward, receive_block-IsValid, receive_block_any_reward}
use npchain.Testnet.Examples.Genesis.{
  genesis, one_block, planted_solves, genesis-Solves, genesis-FitsFixed, one_block-added,
  one_block-IsLinked, one_block-Saveable, one_block-reloaded, one_block-IsValid,
}

wire_to_block-block_to_wire_example :
    wire_to_block (block_to_wire (hashed genesis)) ≡ some (hashed genesis)
wire_to_block-block_to_wire_example =
    wire_to_block-block_to_wire (hashed genesis) genesis-FitsFixed refl (omega arith) (omega arith)

load_from_disk-save_to_disk_example :
    load_from_disk fractions 5 (save_to_disk one_block) empty_chain ≡ (one_block, true)
unfolding append
load_from_disk-save_to_disk_example =
    load_from_disk-save_to_disk fractions 5 one_block one_block-Saveable (omega arith)
      one_block-IsLinked (genesis-Solves, tt) refl

load_from_disk-IsValid_example :
    IsValid fractions 5 (load_from_disk fractions 5 (save_to_disk one_block) empty_chain).0
load_from_disk-IsValid_example =
    load_from_disk-IsValid fractions 5 (save_to_disk one_block) empty_chain
      (ap (λ r. r.1) one_block-reloaded)

-- A block of height 0 with a previous hash that no block has.
abbrev stray : Block
stray = record genesis { prev_hash = replicate 32 7; reward = 9 }

add_block-genesis_again_example :
    ((add_block one_block stray).1 ≡ true)
    × (height (add_block one_block stray).0 ≡ 0)
    × ¬ IsLinked (add_block one_block stray).0
unfolding append
add_block-genesis_again_example = add_block-genesis_again one_block stray (omega arith) refl

receive_block-IsValid_example : IsValid fractions 5 (receive_block fractions 5 one_block stray).0
unfolding append
receive_block-IsValid_example =
    receive_block-IsValid fractions 5 one_block stray one_block-IsValid (omega arith)
      (inl (omega arith))

genesis-received : (receive_block fractions 5 empty_chain genesis).1 ≡ true
unfolding receive_block receive_genesis bytes_eq add_block
genesis-received = rw planted_solves (ap (λ r. r.1) one_block-added)

receive_block_any_reward_example :
    ((receive_block fractions 5 empty_chain (with_reward 123 genesis)).1 ≡ true)
    × ((receive_block fractions 5 empty_chain (with_reward 123 genesis)).0.total_supply
        ≡ (empty_chain.total_supply + 123) % 2 ^ 64)
receive_block_any_reward_example =
    receive_block_any_reward fractions 5 empty_chain genesis 123 genesis-received

-- A block of height 1 that names the zero hash.
abbrev orphan : Block
orphan = record genesis { height = 1 }
