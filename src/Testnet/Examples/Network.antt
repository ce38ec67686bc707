-- ===== src/Testnet/Examples/Network.antt =====
-- The messages of peers at concrete inputs.
use npchain.Base.{◌≡◌, ◌≤◌, arith, refl, false, [], ◌∷◌, ◌++◌, length, to_le, fractions, List, ℕ}
use npchain.Crypto.Hash.{zero_hash}
use npchain.Testnet.Block.Bits.{pack_bits}
use npchain.Testnet.Block.Wire.{MsgType, build_message, block_to_wire, push_variable}
use npchain.Testnet.Block.Wire.RoundTrip.{length-push_fixed}
use npchain.Testnet.Chain.{empty_chain, append, hashed}
use npchain.Testnet.Disk.Load.{IsValid}
use npchain.Testnet.Peers.{Session, push_blocks, handle_message, peer_recv_loop}
use npchain.Testnet.Peers.Safe.{peer_recv_loop-IsValid}
use npchain.Testnet.Peers.Sync.{Sendable, given, handle_message-push_blocks}
use npchain.Testnet.Examples.Genesis.{
  miner, genesis, genesis-FitsFixed, one_block, one_block-IsValid,
}

abbrev session : Session
session = record {
  manager = record {
    listen_port = 19333;
    miner_addr = miner;
    local_height = 0;
    local_tip = zero_hash;
  };
  peer = record {
    chain_height = 0;
    best_hash = zero_hash;
    listen_port = 0;
    miner_addr = [];
    hello_sent = false;
    hello_received = false;
    sync_failures = 0;
    last_sync_attempt = 0;
  };
  chain = empty_chain;
  sent = [];
}

abbrev connected : Session
connected = record session { chain = one_block }

-- A ping, a block of two bytes, and a hello that is too short.
abbrev noise : List ℕ
noise =
    build_message MsgType.ping []
    ++ (build_message MsgType.new_block (7 ∷ 7 ∷ []) ++ build_message MsgType.hello (1 ∷ []))

peer_recv_loop-IsValid_example :
    IsValid fractions 5 (peer_recv_loop fractions 5 (1 ∷ 2 ∷ 3 ∷ []) noise connected).chain
unfolding append
peer_recv_loop-IsValid_example =
    peer_recv_loop-IsValid fractions 5 (1 ∷ 2 ∷ 3 ∷ []) noise connected one_block-IsValid
      (omega arith) (omega arith)

genesis-short : length (block_to_wire (hashed genesis)) ≤ 100_000
unfolding block_to_wire push_variable pack_bits to_le
genesis-short = omega (arith, length-push_fixed (hashed genesis) _ genesis-FitsFixed)

genesis-Sendable : Sendable (hashed genesis)
genesis-Sendable = record {
  fixed = genesis-FitsFixed;
  witness = refl;
  few_variables = omega arith;
  miner_address = omega arith;
  wire = genesis-short;
}

handle_message-push_blocks_example :
    (handle_message fractions 5 4 0x03
      (to_le 4 1 ++ push_blocks (hashed genesis ∷ []))
      session).chain
    ≡ given fractions 5 (hashed genesis ∷ []) empty_chain
handle_message-push_blocks_example =
    handle_message-push_blocks fractions 5 4 (hashed genesis ∷ []) session (omega arith)
      (genesis-Sendable, tt)
