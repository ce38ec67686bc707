-- ===== src/Testnet/Disk.antt =====
-- `save_to_disk` and `load_from_disk` of `ChainState` (src/testnet_node.cpp). A file is its bytes.
pub mod Load
pub mod RoundTrip
use npchain.Base.{
  ℕ, zero, suc, ◌+◌, ◌*◌, ◌/◌, ◌%◌, ◌^◌, Bool, true, false, not, ◌&&◌, Option, none, some, List, [],
  ◌∷◌, ◌++◌, length, take, Bytes, bytes_eq, to_le, read, read_uint, ◌==◌, if◌then◌else◌, Floats,
  ◌>>=◌, ◌>>◌, require,
}
use npchain.Crypto.Hash.{Hash256, zero_hash}
use npchain.Ponw.Sat.{SatInstance, verify}
use npchain.Testnet.Block.{Block, compute_hash}
use npchain.Testnet.Block.Bits.{unpack_bits}
use npchain.Testnet.Block.Wire.{push_fixed, push_variable, read_fixed}
use npchain.Testnet.Chain.{ChainState, empty_chain, is_empty, back, append}
use npchain.Testnet.Instance.{generate_instance}

-- "NPCB"
abbrev pub magic : Bytes
magic = 0x4E ∷ 0x50 ∷ 0x43 ∷ 0x42 ∷ []

-- The witness by its own size, and as much of the address as its 16-bit length says.
unfoldable pub save_block : Block → Bytes → Bytes
save_block b rest = push_fixed b (
    push_variable (length b.witness % 2 ^ 32) b.witness b.miner_address
      (take (length b.miner_address % 2 ^ 16) b.miner_address ++ rest))

unfoldable pub save_blocks : List Block → Bytes
save_blocks [] = []
save_blocks (b ∷ bs) = save_block b (save_blocks bs)

-- The file that is written.
unfoldable pub save_to_disk : ChainState → Bytes
save_to_disk c = magic ++ (to_le 4 1 ++ (to_le 8 (length c.blocks) ++ save_blocks c.blocks))

-- One block and what follows it; `none` where the file ends too early.
unfoldable pub load_block : Bytes → Option (Block × Bytes)
load_block bs = do
  (b, bs0) ← read_fixed bs
  (wsize, bs1) ← read_uint 4 bs0
  (wbits, bs2) ← read ((wsize + 7) / 8) bs1
  (alen, bs3) ← read_uint 2 bs2
  (miner_address, bs4) ← read alen bs3
  some (record b { witness = unpack_bits wsize wbits; miner_address = miner_address }, bs4)

-- The previous hash is zero at height 0, and that of the block before elsewhere.
unfoldable pub chains_to : List Block → Block → Bool
chains_to blocks b =
    if b.height == 0
    then bytes_eq b.prev_hash zero_hash
    else not (is_empty blocks) && bytes_eq b.prev_hash (back blocks).hash

abbrev pub verified_by : Option SatInstance → List Bool → Bool
verified_by none witness = false
verified_by (some inst) witness = verify inst witness

abbrev pub cleared : ChainState → ChainState
cleared c = record c { blocks = []; total_supply = 0; balances = [] }

-- The number of blocks, and what follows it.
unfoldable pub header : Bytes → Option (ℕ × Bytes)
header file = do
  (found, bs0) ← read 4 file
  require (bytes_eq found magic)
  (version, bs1) ← read_uint 4 bs0
  require (version == 1)
  read_uint 8 bs1

-- A generator that outruns `fuel` counts as a rejection.
module _ (fl : Floats) (fuel : ℕ) where
  unfoldable pub revalidate : List Block → Block → Bool
  unfolding chains_to
  revalidate blocks b =
      bytes_eq (compute_hash b) b.hash
      && (chains_to blocks b
          && ((b.height == length blocks)
              && verified_by (generate_instance fl fuel b.prev_hash b.difficulty) b.witness))

  -- The loop over the blocks: the state that is reached, and whether all were accepted.
  unfoldable pub load_blocks : ℕ → Bytes → ChainState → ChainState × Bool
  load_blocks zero bs c = (c, true)
  load_blocks (suc count) bs c = elim (load_block bs) [
    | none ↦ (c, false)
    | some (b, rest) ↦
        let loaded = load_blocks count rest (append c b) in
        if revalidate c.blocks b then loaded else (c, false)
  ]

  -- A file that ends before the count is taken to be refused; the source reads the count from
  -- uninitialised memory there.
  unfoldable pub load_from_disk : Bytes → ChainState → ChainState × Bool
  load_from_disk file c = elim (header file) [
    | none ↦ (c, false)
    | some (count, bs) ↦ load_blocks count bs (cleared c)
  ]
