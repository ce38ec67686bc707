-- ===== src/Testnet/Migration.antt =====
-- `MigrationState` of src/testnet_node.cpp: the snapshot of the balances for the main network.
pub mod Snapshot
use npchain.Base.{
  ℕ, zero, suc, ◌+◌, ◌-◌, ◌*◌, ◌/◌, ◌%◌, ◌^◌, Bool, true, false, not, ◌&&◌, Option, none, some,
  List, [], ◌∷◌, ◌++◌, length, map, Bytes, bytes_eq, Dict, bytes_key, assign, find_or, to_le, ltb,
  leb, ◌==◌, if◌then◌else◌,
}
use npchain.Crypto.Hash.{Hash256, zero_hash, sha3_256}
use npchain.Testnet.Block.{Block}
use npchain.Testnet.Chain.{ChainState, height}

abbrev pub conversion_ratio : ℕ
conversion_ratio = 1000

abbrev pub min_balance_to_migrate : ℕ
min_balance_to_migrate = 47_564_688_000

pub record BalanceSnapshot : Type 0 where
  pub address : Bytes
  pub testnet_balance : ℕ
  pub mainnet_balance : ℕ
  pub blocks_mined : ℕ
  pub proof : Hash256
  pub kyc_verified : Bool
  pub kyc_token : Bytes

pub record MigrationState : Type 0 where
  pub snapshot_taken : Bool
  pub snapshot_height : ℕ
  pub snapshot_timestamp : ℕ
  pub merkle_root : Hash256
  pub snapshots : List BalanceSnapshot
  pub total_testnet_supply : ℕ
  pub total_mainnet_allocation : ℕ
  pub eligible_wallets : ℕ
  pub kyc_verified_count : ℕ

-- blocks_per_miner[b.miner_address]++
unfoldable pub count_blocks : Dict Bytes ℕ → List Block → Dict Bytes ℕ
count_blocks counts [] = counts
count_blocks counts (b ∷ bs) =
    count_blocks (assign b.miner_address ((find_or 0 b.miner_address counts + 1) % 2 ^ 64) counts)
      bs

-- The snapshot of one balance; its proof is SHA3(address || balance || blocks_mined).
unfoldable pub snapshot_of : Dict Bytes ℕ → Bytes → ℕ → BalanceSnapshot
snapshot_of counts addr balance =
    let blocks_mined = find_or 0 addr counts in
    record {
      address = addr;
      testnet_balance = balance;
      mainnet_balance = balance / conversion_ratio;
      blocks_mined = blocks_mined;
      proof = sha3_256 (addr ++ (to_le 8 balance ++ to_le 8 blocks_mined));
      kyc_verified = false;
      kyc_token = [];
    }

-- The loop over the balances: the snapshots, the allocation and the number of wallets so far.
unfoldable pub snapshot_loop :
    Dict Bytes ℕ → Dict Bytes ℕ → List BalanceSnapshot → ℕ → ℕ → List BalanceSnapshot × ℕ × ℕ
snapshot_loop counts [] snaps allocation wallets = (snaps, allocation, wallets)
snapshot_loop counts ((addr, balance) ∷ rest) snaps allocation wallets =
    let snap = snapshot_of counts addr balance in
    let low = ltb balance min_balance_to_migrate in
    snapshot_loop counts rest (if low then snaps else snaps ++ (snap ∷ []))
      (if low then allocation else (allocation + snap.mainnet_balance) % 2 ^ 64)
      (if low then wallets else (wallets + 1) % 2 ^ 32)

-- One round of "Simple merkle tree".
unfoldable pub tree_level : List Hash256 → List Hash256
tree_level [] = []
tree_level (a ∷ []) = sha3_256 (a ++ a) ∷ []
tree_level (a ∷ b ∷ rest) = sha3_256 (a ++ b) ∷ tree_level rest

-- while (leaves.size() > 1), with as many rounds as there are leaves.
unfoldable pub tree_loop : ℕ → List Hash256 → List Hash256
tree_loop zero leaves = leaves
tree_loop (suc fuel) leaves =
    let rest = tree_loop fuel (tree_level leaves) in if ltb 1 (length leaves) then rest else leaves

-- leaves[0], of a list that is not empty.
abbrev pub first_leaf : List Hash256 → Hash256 → Hash256
first_leaf [] d = d
first_leaf (a ∷ rest) d = a

-- The root stays what it was where there is no snapshot.
unfoldable pub tree_root : List Hash256 → Hash256 → Hash256
tree_root leaves before =
    if ltb 0 (length leaves) then first_leaf (tree_loop (length leaves) leaves) before else before

-- `now` is the system clock in seconds.
unfoldable pub take_snapshot : MigrationState → ChainState → ℕ → MigrationState
take_snapshot m chain now =
    let counts = count_blocks [] chain.blocks in
    let (snaps, allocation, wallets) = snapshot_loop counts chain.balances [] 0 0 in
    record m {
      snapshot_taken = true;
      snapshot_height = height chain;
      snapshot_timestamp = now;
      merkle_root = tree_root (map (λ s. s.proof) snaps) m.merkle_root;
      snapshots = snaps;
      total_testnet_supply = chain.total_supply;
      total_mainnet_allocation = allocation;
      eligible_wallets = wallets;
    }

unfoldable pub verify_first : Bytes → Bytes → List BalanceSnapshot → List BalanceSnapshot × Bool
verify_first address token [] = ([], false)
verify_first address token (s ∷ rest) =
    let (rest', done) = verify_first address token rest in
    if bytes_eq s.address address
    then (record s { kyc_verified = true; kyc_token = token } ∷ rest, true)
    else (s ∷ rest', done)

unfoldable pub verify_kyc : MigrationState → Bytes → Bytes → MigrationState × Bool
unfolding verify_first
verify_kyc m address token =
    let (snaps, done) = verify_first address token m.snapshots in
    let count = if done then (m.kyc_verified_count + 1) % 2 ^ 32 else m.kyc_verified_count in
    (record m { snapshots = snaps; kyc_verified_count = count }, done)

snapshot_with : Bytes → List BalanceSnapshot → Option BalanceSnapshot
snapshot_with address [] = none
snapshot_with address (s ∷ rest) =
    let later = snapshot_with address rest in if bytes_eq s.address address then some s else later

unfoldable pub get_snapshot : MigrationState → Bytes → Option BalanceSnapshot
unfolding snapshot_with
get_snapshot m address = snapshot_with address m.snapshots
