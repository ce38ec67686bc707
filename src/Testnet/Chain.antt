-- ===== src/Testnet/Chain.antt =====
-- `ChainState` of src/testnet_node.cpp: the blocks, the supply and the balances.
pub mod Accepts
pub mod Supply
pub mod Links
use npchain.Base.{
  ℕ, ◌+◌, ◌-◌, ◌*◌, ◌/◌, ◌%◌, ◌^◌, max, Bool, true, false, not, ◌&&◌, ◌||◌, List, [], ◌∷◌, ◌++◌,
  length, last_or, get_or, Bytes, bytes_eq, Dict, bytes_key, assign, find_or, leb, ltb, ◌==◌,
  if◌then◌else◌, Floats, clamp,
}
use npchain.Crypto.Hash.{Hash256, zero_hash}
use npchain.Testnet.Block.{Block, default_block, compute_hash}

pub record ChainState : Type 0 where
  pub blocks : List Block
  pub total_supply : ℕ
  pub recent_timestamps : List ℕ
  pub balances : Dict Bytes ℕ

abbrev pub empty_chain : ChainState
empty_chain = record { blocks = []; total_supply = 0; recent_timestamps = []; balances = [] }

abbrev pub is_empty : List Block → Bool
is_empty [] = true
is_empty (b ∷ bs) = false

-- blocks.back(), of a list that is not empty.
abbrev pub back : List Block → Block
back blocks = last_or blocks default_block

unfoldable pub tip_hash : ChainState → Hash256
tip_hash c = if is_empty c.blocks then zero_hash else (back c.blocks).hash

unfoldable pub height : ChainState → ℕ
height c = if is_empty c.blocks then 0 else (back c.blocks).height

unfoldable pub block_reward : ℕ
block_reward = 100_000_000_000 * 1_000_000 / 2_102_400

-- balances[addr] += amount
unfoldable pub credit : Bytes → ℕ → Dict Bytes ℕ → Dict Bytes ℕ
credit addr amount balances = assign addr ((find_or 0 addr balances + amount) % 2 ^ 64) balances

-- What `add_block` and `load_from_disk` do with a block that they accept.
unfoldable pub append : ChainState → Block → ChainState
append c b = record c {
  blocks = c.blocks ++ (b ∷ []);
  total_supply = (c.total_supply + b.reward) % 2 ^ 64;
  balances = credit b.miner_address b.reward c.balances;
}

abbrev pub hashed : Block → Block
hashed block = record block { hash = compute_hash block }

unfoldable pub add_block : ChainState → Block → ChainState × Bool
add_block c block =
    if not (block.height == ((height c + 1) % 2 ^ 64)) && not (block.height == 0)
    then (c, false)
    else if ltb 0 block.height && not (bytes_eq block.prev_hash (tip_hash c))
    then (c, false)
    else (append c (hashed block), true)

unfoldable pub get_balance : ChainState → Bytes → ℕ
get_balance c addr = find_or 0 addr c.balances

module _ (fl : Floats) where
  open fl use {of_uint, literal, mul, div, to_uint}

  unfoldable pub current_difficulty : ChainState → ℕ
  current_difficulty c =
      let size = length c.blocks in
      let start_idx = if leb 36 size then size - 36 else 0 in
      let span =
        ((back c.blocks).timestamp + 2 ^ 64 - (get_or c.blocks start_idx default_block).timestamp)
        % 2 ^ 64 in
      let time_span = if span == 0 then 1 else span in
      let actual_avg = div (of_uint time_span) (of_uint (size - start_idx)) in
      let ratio =
        clamp fl (div (of_uint 15) actual_avg) (div (literal 10 1) (literal 20 1)) (literal 20 1) in
      let new_diff = to_uint (mul (of_uint (back c.blocks).difficulty) ratio) % 2 ^ 32 in
      if ltb size 2
      then 1
      else if not ((size % 36) == 0)
      then (back c.blocks).difficulty
      else max new_diff 1
