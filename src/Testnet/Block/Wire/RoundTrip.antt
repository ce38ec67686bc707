-- ===== src/Testnet/Block/Wire/RoundTrip.antt =====
-- A block read back from its layout.
use npchain.Base.{
  ℕ, ◌+◌, ◌/◌, ◌^◌, ◌<◌, ◌≤◌, ◌≡◌, subst, Bool, true, some, List, [], length, Bytes, read-append,
  read_uint-to_le, read_all, length-append, length-to_le, leb, arith,
}
use npchain.Testnet.Block.{Block}
use npchain.Testnet.Block.Bits.{pack_bits, unpack_bits, length-pack_bits, unpack_bits-pack_bits}
use npchain.Testnet.Block.Wire.{push_fixed, push_variable, block_to_wire, read_fixed, wire_to_block}

-- Each fixed field has its width.
pub record FitsFixed (b : Block) : Type 0 where
  pub version : b.version < 256 ^ 4
  pub height : b.height < 256 ^ 8
  pub prev_hash : length b.prev_hash ≡ 32
  pub merkle_root : length b.merkle_root ≡ 32
  pub timestamp : b.timestamp < 256 ^ 8
  pub difficulty : b.difficulty < 256 ^ 4
  pub num_variables : b.num_variables < 256 ^ 4
  pub num_clauses : b.num_clauses < 256 ^ 4
  pub witness_hash : length b.witness_hash ≡ 32
  pub reward : b.reward < 256 ^ 8
  pub hash : length b.hash ≡ 32

pub read_fixed-push_fixed :
    (b : Block) (rest : Bytes)
    → FitsFixed b
    → read_fixed (push_fixed b rest) ≡ some (record b { witness = []; miner_address = [] }, rest)
unfolding read_fixed push_fixed
read_fixed-push_fixed b rest f = rw (
  read_uint-to_le 4 b.version _ f.version,
  read_uint-to_le 8 b.height _ f.height,
  read-append 32 b.prev_hash _ f.prev_hash,
  read-append 32 b.merkle_root _ f.merkle_root,
  read_uint-to_le 8 b.timestamp _ f.timestamp,
  read_uint-to_le 4 b.difficulty _ f.difficulty,
  read_uint-to_le 4 b.num_variables _ f.num_variables,
  read_uint-to_le 4 b.num_clauses _ f.num_clauses,
  read-append 32 b.witness_hash _ f.witness_hash,
  read_uint-to_le 8 b.reward _ f.reward,
  read-append 32 b.hash _ f.hash,
)

pub length-push_fixed :
    (b : Block) (rest : Bytes) → FitsFixed b → length (push_fixed b rest) ≡ 168 + length rest
unfolding push_fixed
length-push_fixed b rest f =
    simp (length-append, length-to_le, f.prev_hash, f.merkle_root, f.witness_hash, f.hash)
      (omega arith)

length-push_variable :
    (wsize : ℕ) (witness : List Bool) (addr rest : Bytes)
    → 6 ≤ length (push_variable wsize witness addr rest)
unfolding push_variable
length-push_variable wsize witness addr rest = simp (length-append, length-to_le) (omega arith)

long_enough :
    (b : Block) (wsize : ℕ) (witness : List Bool) (addr rest : Bytes)
    → FitsFixed b
    → leb 174 (length (push_fixed b (push_variable wsize witness addr rest))) ≡ true
long_enough b wsize witness addr rest f = ground (
  arith,
  length-push_fixed b (push_variable wsize witness addr rest) f,
  length-push_variable wsize witness addr rest,
)

-- A block whose fields have their widths, with a witness of `num_variables` bits, 10000 at most,
-- and an address of 200 bytes at most, is read back from the wire as it was.
pub wire_to_block-block_to_wire :
    (b : Block)
    → FitsFixed b
    → length b.witness ≡ b.num_variables
    → b.num_variables ≤ 10000
    → length b.miner_address ≤ 200
    → wire_to_block (block_to_wire b) ≡ some b
unfolding wire_to_block block_to_wire
wire_to_block-block_to_wire b f len few short =
    let small : leb b.num_variables 10000 ≡ true = ground arith in
    let fit : leb (length b.miner_address) 200 ≡ true = ground arith in
    let round : unpack_bits b.num_variables (pack_bits b.num_variables b.witness) ≡ b.witness =
      subst (λ n. unpack_bits n (pack_bits n b.witness) ≡ b.witness) len
        (unpack_bits-pack_bits b.witness) in
    rw
      (
        long_enough b b.num_variables b.witness b.miner_address b.miner_address f,
        read_fixed-push_fixed b
            (push_variable b.num_variables b.witness b.miner_address b.miner_address) f,
      )
      (unfold push_variable in
        rw (
          read_uint-to_le 4 b.num_variables _ (omega arith),
          small,
          read-append ((b.num_variables + 7) / 8) (pack_bits b.num_variables b.witness) _
              (length-pack_bits b.num_variables b.witness),
          read_uint-to_le 2 (length b.miner_address) _ (omega arith),
          fit,
          read_all b.miner_address,
          round,
        ))
