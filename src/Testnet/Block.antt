-- ===== src/Testnet/Block.antt =====
-- `Block`, its hash, and its layout on the wire and on disk (src/testnet_node.cpp, src/p2p.hpp).
pub mod Bits
pub mod Wire
use npchain.Base.{ℕ, Bool, List, [], ◌∷◌, ◌++◌, Bytes, to_le, refl, ◌≡◌}
use npchain.Crypto.Hash.{Hash256, sha3_256, zero_hash}

pub record Block : Type 0 where
  pub version : ℕ
  pub height : ℕ
  pub prev_hash : Hash256
  pub merkle_root : Hash256
  pub timestamp : ℕ
  pub difficulty : ℕ
  pub num_variables : ℕ
  pub num_clauses : ℕ
  pub witness : List Bool
  pub witness_hash : Hash256
  pub reward : ℕ
  pub miner_address : Bytes
  pub hash : Hash256

-- `Block{}`
abbrev pub default_block : Block
default_block = record {
  version = 1;
  height = 0;
  prev_hash = zero_hash;
  merkle_root = zero_hash;
  timestamp = 0;
  difficulty = 1;
  num_variables = 0;
  num_clauses = 0;
  witness = [];
  witness_hash = zero_hash;
  reward = 0;
  miner_address = [];
  hash = zero_hash;
}

unfoldable pub serialize : Block → Bytes
serialize b =
    to_le 4 b.version
    ++ (to_le 8 b.height
        ++ (b.prev_hash
            ++ (b.merkle_root
                ++ (to_le 8 b.timestamp
                    ++ (to_le 4 b.difficulty
                        ++ (to_le 4 b.num_variables
                            ++ (to_le 4 b.num_clauses ++ (b.witness_hash ++ to_le 8 b.reward))))))))

unfoldable pub compute_hash : Block → Hash256
compute_hash b = sha3_256 (serialize b)
