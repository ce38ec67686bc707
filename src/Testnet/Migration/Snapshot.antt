-- ===== src/Testnet/Migration/Snapshot.antt =====
-- What a snapshot holds.
use npchain.Base.{
  ℕ, zero, suc, ◌+◌, ◌/◌, ◌%◌, ◌^◌, ◌<◌, ◌≤◌, ◌≡◌, refl, ap, ◌∙◌, true, false, List, [], ◌∷◌, ◌++◌,
  length, length-append, map, Bytes, bytes_eq, Dict, All, All-append, ltb, leb, if◌then◌else◌,
  arith, Bool-cases, inl, inr,
}
use npchain.Crypto.Hash.{Hash256, zero_hash}
use npchain.Crypto.Merkle.{combine, head_or, next_level, root_loop, merkle_root}
use npchain.Testnet.Chain.{ChainState}
use npchain.Testnet.Migration.{
  conversion_ratio, min_balance_to_migrate, BalanceSnapshot, MigrationState, snapshot_of,
  snapshot_loop, tree_level, tree_loop, first_leaf, tree_root, take_snapshot, count_blocks,
  verify_first, verify_kyc,
}

tree_level-next_level : (leaves : List Hash256) → tree_level leaves ≡ next_level leaves
unfolding tree_level next_level
tree_level-next_level [] = refl
tree_level-next_level (a ∷ []) = refl
tree_level-next_level (a ∷ b ∷ rest) = ap (◌∷◌ (combine a b)) (tree_level-next_level rest)

tree_loop-root_loop :
    (fuel : ℕ) (leaves : List Hash256) → tree_loop fuel leaves ≡ root_loop fuel leaves
unfolding tree_loop root_loop
tree_loop-root_loop zero leaves = refl
tree_loop-root_loop (suc fuel) leaves =
    let rest : tree_loop fuel (tree_level leaves) ≡ root_loop fuel (next_level leaves) =
      ap (tree_loop fuel) (tree_level-next_level leaves)
      ∙ tree_loop-root_loop fuel (next_level leaves) in
    ground (arith, rest)

next_level_some : (leaves : List Hash256) → 0 < length leaves → 0 < length (next_level leaves)
unfolding next_level
next_level_some [] h = h
next_level_some (a ∷ []) h = omega arith
next_level_some (a ∷ b ∷ rest) h = omega arith

root_loop_some :
    (fuel : ℕ) (leaves : List Hash256) → 0 < length leaves → 0 < length (root_loop fuel leaves)
unfolding root_loop
root_loop_some zero leaves h = h
root_loop_some (suc fuel) leaves h = elim (Bool-cases (leb (length leaves) 1)) [
  | inl e ↦ rw e h
  | inr e ↦ rw e (root_loop_some fuel (next_level leaves) (next_level_some leaves h))
]

first_leaf-head_or :
    (leaves : List Hash256) (before : Hash256)
    → 0 < length leaves
    → first_leaf leaves before ≡ head_or leaves zero_hash
first_leaf-head_or [] before h = absurd (omega arith)
first_leaf-head_or (a ∷ leaves) before h = refl

tree_root-merkle_root :
    (leaf : Hash256) (leaves : List Hash256) (before : Hash256)
    → tree_root (leaf ∷ leaves) before ≡ merkle_root (leaf ∷ leaves)
unfolding tree_root merkle_root
tree_root-merkle_root leaf leaves before =
    let same = tree_loop-root_loop (suc (length leaves)) (leaf ∷ leaves) in
    let some_leaves : ltb 0 (suc (length leaves)) ≡ true = ground arith in
    rw some_leaves (
      ap (λ xs. first_leaf xs before) same
      ∙ first_leaf-head_or _ before
          (root_loop_some (suc (length leaves)) (leaf ∷ leaves) (omega arith)))

-- A wallet with the least balance or more, converted 1000 to 1, and not verified yet.
abbrev pub IsEligible : BalanceSnapshot → Type 0
IsEligible s =
    (min_balance_to_migrate ≤ s.testnet_balance)
    × (s.mainnet_balance ≡ s.testnet_balance / conversion_ratio)
    × (s.kyc_verified ≡ false)

unfoldable pub allocated : List BalanceSnapshot → ℕ
allocated [] = 0
allocated (s ∷ rest) = s.mainnet_balance + allocated rest

allocated-append :
    (xs ys : List BalanceSnapshot) → allocated (xs ++ ys) ≡ allocated xs + allocated ys
unfolding allocated
allocated-append [] ys = omega arith
allocated-append (x ∷ xs) ys = omega (arith, allocated-append xs ys)

abbrev Counted : List BalanceSnapshot × ℕ × ℕ → Type 0
Counted (snaps, allocation, wallets) =
    All IsEligible snaps
    × (allocation ≡ allocated snaps % 2 ^ 64)
    × (wallets ≡ length snaps % 2 ^ 32)

snapshot_loop-Counted :
    (counts balances : Dict Bytes ℕ) (snaps : List BalanceSnapshot) (allocation wallets : ℕ)
    → Counted (snaps, allocation, wallets)
    → Counted (snapshot_loop counts balances snaps allocation wallets)
unfolding snapshot_loop
snapshot_loop-Counted counts [] snaps allocation wallets h = h
snapshot_loop-Counted counts ((addr, balance) ∷ rest) snaps allocation wallets (e, a, w) =
    elim (Bool-cases (ltb balance min_balance_to_migrate)) [
      | inl low ↦
          rw (low, snapshot_loop)
            (snapshot_loop-Counted counts rest snaps allocation wallets (e, a, w))
      | inr enough ↦
          let snap = snapshot_of counts addr balance in
          let eligible : IsEligible snap = unfold snapshot_of in (ground arith, refl, refl) in
          rw (enough, snapshot_loop)
            (snapshot_loop-Counted counts rest (snaps ++ (snap ∷ [])) _ _ (
              All-append IsEligible snaps (snap ∷ []) e (eligible, tt),
              unfold allocated in omega (arith, a, allocated-append snaps (snap ∷ [])),
              omega (arith, w, length-append snaps (snap ∷ [])),
            ))
    ]

-- The snapshot's root as the library computes it, or the one before where there is no leaf.
abbrev pub root_of : List Hash256 → Hash256 → Hash256
root_of [] before = before
root_of (leaf ∷ leaves) before = merkle_root (leaf ∷ leaves)

tree_root-root_of :
    (leaves : List Hash256) (before : Hash256) → tree_root leaves before ≡ root_of leaves before
tree_root-root_of [] before = unfold tree_root in refl
tree_root-root_of (leaf ∷ leaves) before = tree_root-merkle_root leaf leaves before

pub record IsSnapshot (before m : MigrationState) : Type 0 where
  pub eligible : All IsEligible m.snapshots
  pub allocation : m.total_mainnet_allocation ≡ allocated m.snapshots % 2 ^ 64
  pub wallets : m.eligible_wallets ≡ length m.snapshots % 2 ^ 32
  pub root : m.merkle_root ≡ root_of (map (λ s. s.proof) m.snapshots) before.merkle_root

pub take_snapshot-IsSnapshot :
    (m : MigrationState) (chain : ChainState) (now : ℕ) → IsSnapshot m (take_snapshot m chain now)
unfolding take_snapshot
take_snapshot-IsSnapshot m chain now =
    let counts = count_blocks [] chain.blocks in
    let (e, a, w) =
      snapshot_loop-Counted counts chain.balances [] 0 0 (tt, unfold allocated in refl, refl) in
    record { eligible = e; allocation = a; wallets = w; root = tree_root-root_of _ m.merkle_root }

unfoldable pub verified_wallets : List BalanceSnapshot → ℕ
verified_wallets [] = 0
verified_wallets (s ∷ rest) = (if s.kyc_verified then 1 else 0) + verified_wallets rest

IsEligible-verified_wallets :
    (snaps : List BalanceSnapshot) → All IsEligible snaps → verified_wallets snaps ≡ 0
unfolding verified_wallets
IsEligible-verified_wallets [] h = refl
IsEligible-verified_wallets (s ∷ rest) (e, es) =
    rw e.2 (omega (arith, IsEligible-verified_wallets rest es))

-- A new snapshot has no verified wallet, yet keeps the count of verified wallets of the one before.
pub take_snapshot_keeps_count :
    (m : MigrationState) (chain : ChainState) (now : ℕ)
    → (verified_wallets (take_snapshot m chain now).snapshots ≡ 0)
      × ((take_snapshot m chain now).kyc_verified_count ≡ m.kyc_verified_count)
take_snapshot_keeps_count m chain now =
    let taken = take_snapshot-IsSnapshot m chain now in
    (IsEligible-verified_wallets _ taken.eligible, unfold take_snapshot in refl)

verify_first_twice :
    (address token : Bytes) (snaps : List BalanceSnapshot)
    → verify_first address token (verify_first address token snaps).0
      ≡ verify_first address token snaps
unfolding verify_first
verify_first_twice address token [] = refl
verify_first_twice address token (s ∷ rest) = elim (Bool-cases (bytes_eq s.address address)) [
  | inl found ↦ rw found (rw found refl)
  | inr other ↦
      rw other (rw other (ap (λ r. (s ∷ r.0, r.1)) (verify_first_twice address token rest)))
]

-- Verifying a wallet of the snapshot a second time succeeds again and counts it again, while the
-- wallets that are verified stay as many as they were.
pub verify_kyc_twice :
    (m : MigrationState) (address token : Bytes)
    → (verify_kyc m address token).1 ≡ true
    → ((verify_kyc (verify_kyc m address token).0 address token).1 ≡ true)
      × ((verify_kyc (verify_kyc m address token).0 address token).0.kyc_verified_count
          ≡ (m.kyc_verified_count + 2) % 2 ^ 32)
      × (verified_wallets (verify_kyc (verify_kyc m address token).0 address token).0.snapshots
          ≡ verified_wallets (verify_kyc m address token).0.snapshots)
unfolding verify_kyc
verify_kyc_twice m address token h =
    let again = verify_first_twice address token m.snapshots in
    rw again (h, rw h (omega arith), refl)
