-- ===== src/Testnet/Block/Wire.antt =====
-- `block_to_wire`, `wire_to_block` and `build_message` of src/p2p.hpp.
pub mod RoundTrip
use npchain.Base.{
  ℕ, ◌+◌, ◌*◌, ◌/◌, ◌%◌, ◌^◌, Bool, true, false, not, ◌||◌, Option, none, some, List, [], ◌∷◌, ◌++◌,
  length, Bytes, to_le, read, read_uint, require, leb, ltb, if◌then◌else◌, ◌>>=◌, ◌>>◌,
}
use npchain.Testnet.Block.{Block}
use npchain.Testnet.Block.Bits.{pack_bits, unpack_bits}

-- The fixed fields, which the wire and the file share, before what follows them.
unfoldable pub push_fixed : Block → Bytes → Bytes
push_fixed b rest =
    to_le 4 b.version
    ++ (to_le 8 b.height
        ++ (b.prev_hash
            ++ (b.merkle_root
                ++ (to_le 8 b.timestamp
                    ++ (to_le 4 b.difficulty
                        ++ (to_le 4 b.num_variables
                            ++ (to_le 4 b.num_clauses
                                ++ (b.witness_hash ++ (to_le 8 b.reward ++ (b.hash ++ rest))))))))))

-- A size in 4 bytes (a uint32_t below 2 ^ 32 - 7), that many witness bits, the length of the
-- address in 2 bytes, and what follows.
unfoldable pub push_variable : ℕ → List Bool → Bytes → Bytes → Bytes
push_variable wsize witness miner_address rest =
    to_le 4 wsize ++ (pack_bits wsize witness ++ (to_le 2 (length miner_address) ++ rest))

-- The number of witness bits on the wire is `num_variables`.
unfoldable pub block_to_wire : Block → Bytes
unfolding push_fixed push_variable
block_to_wire b =
    push_fixed b (push_variable b.num_variables b.witness b.miner_address b.miner_address)

-- The fixed fields read into a block whose witness and address are still empty.
unfoldable pub read_fixed : Bytes → Option (Block × Bytes)
read_fixed bs0 = do
  (version, bs1) ← read_uint 4 bs0
  (height, bs2) ← read_uint 8 bs1
  (prev_hash, bs3) ← read 32 bs2
  (merkle_root, bs4) ← read 32 bs3
  (timestamp, bs5) ← read_uint 8 bs4
  (difficulty, bs6) ← read_uint 4 bs5
  (num_variables, bs7) ← read_uint 4 bs6
  (num_clauses, bs8) ← read_uint 4 bs7
  (witness_hash, bs9) ← read 32 bs8
  (reward, bs10) ← read_uint 8 bs9
  (hash, bs11) ← read 32 bs10
  some (
    record {
      version = version;
      height = height;
      prev_hash = prev_hash;
      merkle_root = merkle_root;
      timestamp = timestamp;
      difficulty = difficulty;
      num_variables = num_variables;
      num_clauses = num_clauses;
      witness = [];
      witness_hash = witness_hash;
      reward = reward;
      miner_address = [];
      hash = hash;
    },
    bs11,
  )

-- The bytes behind the address are ignored.
unfoldable pub wire_to_block : Bytes → Option Block
wire_to_block wire = do
  require (leb 174 (length wire))
  (b, bs0) ← read_fixed wire
  (wsize, bs1) ← read_uint 4 bs0
  require (leb wsize 10000)
  (wbits, bs2) ← read ((wsize + 7) / 8) bs1
  (alen, bs3) ← read_uint 2 bs2
  require (leb alen 200)
  (miner_address, bs4) ← read alen bs3
  some (record b { witness = unpack_bits wsize wbits; miner_address = miner_address })

pub data MsgType : Type 0 where
  hello get_blocks blocks new_block ping pong : MsgType

abbrev pub type_byte : MsgType → ℕ
type_byte MsgType.hello = 0x01
type_byte MsgType.get_blocks = 0x02
type_byte MsgType.blocks = 0x03
type_byte MsgType.new_block = 0x04
type_byte MsgType.ping = 0x05
type_byte MsgType.pong = 0x06

unfoldable pub build_message : MsgType → Bytes → Bytes
build_message type payload = to_le 4 ((1 + length payload) % 2 ^ 32) ++ (type_byte type ∷ payload)
