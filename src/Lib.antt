-- ===== src/Lib.antt =====
-- NPChain: a block chain whose miners solve instances of NP-complete problems.
--
-- The repository is C++. Its parts, and the modules that model them:
--
-- - Emission (include/core/transaction.hpp, class CoinbaseTx, and the constants of
--   include/utils/types.hpp): the reward of a height and the supply below it, in uint64_t and
--   __uint128_t with their wraps.
-- - Crypto (src/crypto/hash.cpp): Keccak is the permutation and the sponge, Hash the four hashes,
--   Merkle the tree, Rng the class DeterministicRNG, Hex the text and the comparison of bytes. All
--   of it runs: SHA3-256 of "abc" is a test. Signature and Address are src/crypto/dilithium.cpp,
--   the stand-in for the lattice scheme, Commitment and Kyber those of src/crypto/commitment.cpp and
--   src/crypto/kyber.cpp, Agility the tags of include/crypto/agility.hpp.
-- - Ponw (src/consensus/ponw_engine.cpp, include/consensus/ponw_engine.hpp): Sat, SubsetSum,
--   GraphColor and Hamiltonian are the instances and their `verify`, Witness the class
--   WitnessVerifier, Problem the choice of a problem and its size; SatGenerator, SubsetGenerator,
--   ColorGenerator and PathGenerator (over Shuffle) the four generators and Generator their
--   dispatch; Engine `validate_block`, Adjuster the class DifficultyAdjuster, Finality
--   `check_finality`. Blocks, witnesses and signature sets are those of include/core/block.hpp.
-- - Mining (src/mining/sat_solver.cpp): State is the state of the CDCL solver, Propagate and Conflict
--   its operations, Search `solve`, Pool the class SolverPool.
-- - Testnet (src/testnet_node.cpp, src/p2p.hpp): Block is the block, its hash, its witness bits and
--   its wire format; Instance `generate_instance`; Chain the class ChainState; Disk its file; Node
--   the anti-sybil checks and the callbacks for peers; Loop the turns of the mining loop; Solver
--   `solve_sat` and Miner `mine_block`; Peers the messages of the class P2PManager; RateLimiter the
--   struct of that name; Governance, Migration and Market the three services that read the chain,
--   of which Market also moves balances.
-- - Mainnet (src/mainnet_node.cpp): Chain is its chain and miner, Node what its `main` does with
--   blocks. The file repeats much of the test network's node; those definitions are shared.
-- - Shield (deploy/shield/proxy.cpp): Bucket, Behavior and Breaker are the structs of the proxy,
--   Filters its state and the filters of its layers, Proxy the steps of its connections.
-- - Wallet (src/wallet.cpp): the encrypted key file.
-- - Base: what all share. Maps are std::map, Reader the reads of fixed-size fields, Float the type
--   `double`.
--
-- How they interact: a node receives a block (Node), checks its place, its miner and its witness
-- against the instance that the previous hash generates (Instance, over Rng and Hash), appends it
-- (Chain) and writes the chain to a file (Disk), which is validated again when it is read. Blocks
-- come from the messages of peers (Peers) and from the miner (Miner, over Solver). The
-- market takes bounties from balances of the chain and pays them back into them. The consensus
-- engine validates a block against the instance of its generator (Ponw.Engine over
-- Ponw.Generator), and the solver for mining searches a SAT instance of the same kind and checks its
-- solution with the same `verify`.
--
-- How the code is read: a struct is a record, a method a function that returns the new state and
-- its result; an array, a vector or a string is a list, bytes are numbers below 256; an unsigned
-- integer is a natural number with its wrap written out. Locks make each handler one step, so that
-- interleavings are sequences of steps; what the mining loop does without its lock is a step of its
-- own.
--
-- Bounds and fuel: the sponge copies a byte at least in each round, and a Merkle level is shorter
-- than the one below, so that the lengths bound those loops. The rejection loop of
-- `next_bounded` has no bound in the code; it takes fuel, and its theorem says which draw ends it:
-- the generators return when their words are lucky (Crypto.Rng.Draws). The loops of the generators
-- and of `solve_sat` count their attempts, as the code does. A search of the CDCL solver takes turns,
-- each of which reads the flag and the clock; fuel bounds the loops inside a turn, of which the
-- one of the Luby numbers does not end in the code.
--
-- Parameters: `double` and <cmath> (Base.Float) are a record of a type and its operations, without
-- laws; the readings of a clock, random key bytes, the order that std::sort gives to equals, and the
-- hash of a block and the decoded witness in the check of finality are arguments. What
-- the repository only declares for `validate_block` (serializations, hashes,
-- `Transaction::validate`, the verifiable delay function) is the record Ponw.Engine.Declared.
--
-- Not modelled: sockets, threads, HTTP and JSON, printing, the failures of the file system, the
-- headers whose functions have no code in the repository, and the connections to peers.
pub mod Base
pub mod Crypto
pub mod Emission
pub mod Mainnet
pub mod Mining
pub mod Ponw
pub mod Shield
pub mod Testnet
pub mod Wallet
