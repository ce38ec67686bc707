-- ===== src/Mainnet/Node/Run.antt =====
-- Whatever order blocks come in, the chain stays valid.
use npchain.Base.{
  ℕ, ◌+◌, ◌%◌, ◌^◌, ◌<◌, ◌≤◌, ◌≡◌, ◌⊎◌, inl, inr, refl, ap, Bool, true, false, not, ◌&&◌, List, [],
  ◌∷◌, length, length-append, bytes_eq, bytes_eq_iff, ltb, ◌==◌, Bool-cases, Floats, arith,
}
use npchain.Testnet.Chain.{is_empty, append, hashed}
use npchain.Testnet.Chain.Accepts.{Accepts-add_block}
use npchain.Testnet.Chain.Links.{IsLinked-height}
use npchain.Testnet.Disk.Load.{Solves, IsValid, verified_by-Solves}
use npchain.Testnet.Node.Receive.{append-hashed-IsValid}
use npchain.Mainnet.Chain.{MainBlock, MainChain, height, tip_hash, add_block}
use npchain.Mainnet.Node.{
  Event, from_peer, from_miner, witness_valid, receive_block, accept_mined, handle, run,
}

not-true : (b : Bool) → not b ≡ false → b ≡ true
not-true true h = refl
not-true false h = cc

empty_length : (bs : List MainBlock) → is_empty bs ≡ true → ¬ (0 < length bs)
empty_length [] e h = omega arith
empty_length (b ∷ bs) e h = absurd (cc)

module _ (fl : Floats) (fuel : ℕ) where
  -- A block is not taken, or it has the next height, the hash of the tip and a witness that solves
  -- its instance, and is appended with its hash.
  Taken : MainChain → MainBlock → MainChain → Type 0
  Taken c b d =
      (d ≡ c)
      ⊎ ((b.height ≡ (height c + 1) % 2 ^ 64)
          × (b.prev_hash ≡ tip_hash c)
          × Solves fl fuel b
          × (d ≡ append c (hashed b)))

  next_added :
      (c : MainChain) (b : MainBlock)
      → (b.height == ((height c + 1) % 2 ^ 64)) ≡ true
      → bytes_eq b.prev_hash (tip_hash c) ≡ true
      → witness_valid fl fuel b ≡ true
      → Taken c b (add_block c b).0
  unfolding Taken
  next_added c b at prev valid =
      let prev' = (bytes_eq_iff b.prev_hash (tip_hash c)).0 prev in
      inr (
        ground arith,
        prev',
        verified_by-Solves fl fuel b valid,
        ap (λ r. r.0) (Accepts-add_block c b (inl (ground arith), λ lt. prev')),
      )

  receive_block-Taken :
      (c : MainChain) (b : MainBlock)
      → (b.height == 0 && is_empty c.blocks) ≡ false
      → Taken c b (receive_block fl fuel c b).0
  unfolding Taken receive_block
  receive_block-Taken c b other =
      rw other (elim (Bool-cases (not (b.height == ((height c + 1) % 2 ^ 64)))) [
        | inl e ↦ rw e (inl refl)
        | inr e1 ↦ elim (Bool-cases (not (bytes_eq b.prev_hash (tip_hash c)))) [
          | inl e ↦ rw (e1, e) (inl refl)
          | inr e2 ↦ elim (Bool-cases (not (witness_valid fl fuel b))) [
            | inl e ↦ rw (e1, e2, e) (inl refl)
            | inr e3 ↦
                rw (e1, e2, e3)
                  (unfold Taken in next_added c b (not-true _ e1) (not-true _ e2) (not-true _ e3))
          ]
        ]
      ])

  accept_mined-Taken :
      (c : MainChain) (b : MainBlock) (n : ℕ) → Taken c b (accept_mined fl fuel c b n).0
  unfolding Taken accept_mined
  accept_mined-Taken c b n = elim (Bool-cases (b.height == 0 && ltb 0 n)) [
    | inl e ↦ rw e (inl refl)
    | inr e1 ↦ elim (Bool-cases (not (witness_valid fl fuel b))) [
      | inl e ↦ rw (e1, e) (inl refl)
      | inr e2 ↦ elim (Bool-cases (b.height == ((height c + 1) % 2 ^ 64))) [
        | inr e ↦ rw (e1, e2, e) (inl refl)
        | inl e3 ↦ elim (Bool-cases (bytes_eq b.prev_hash (tip_hash c))) [
          | inr e ↦ rw (e1, e2, e3, e) (inl refl)
          | inl e4 ↦ rw (e1, e2, e3, e4) (unfold Taken in next_added c b e3 e4 (not-true _ e2))
        ]
      ]
    ]
  ]

  not_genesis :
      (c : MainChain) (b : MainBlock)
      → 0 < length c.blocks
      → (b.height == 0 && is_empty c.blocks) ≡ false
  not_genesis c b some_blocks = elim (Bool-cases (is_empty c.blocks)) [
    | inl e ↦ absurd (empty_length c.blocks e some_blocks)
    | inr e ↦ rw e (elim (Bool-cases (b.height == 0)) [ inl f ↦ rw f refl | inr f ↦ rw f refl ])
  ]

  -- A valid chain that is not empty and no longer than the block it took allows.
  Grown : MainChain → MainChain → Type 0
  Grown c d = IsValid fl fuel d × (0 < length d.blocks) × (length d.blocks ≤ length c.blocks + 1)

  Taken-Grown :
      (c d : MainChain) (b : MainBlock)
      → IsValid fl fuel c
      → 0 < length c.blocks
      → length c.blocks < 2 ^ 64
      → Taken c b d
      → Grown c d
  unfolding Taken Grown append
  Taken-Grown c d b v some_blocks small (inl e) = rw e (v, some_blocks, omega arith)
  Taken-Grown c d b v some_blocks small (inr (at, linked, solved, e)) =
      let level = IsLinked-height c some_blocks v.linked in
      let longer = length-append c.blocks (hashed b ∷ []) in
      rw e (
        append-hashed-IsValid fl fuel c b v (omega (arith, level, at)) linked solved,
        omega (arith, longer),
        omega (arith, longer),
      )

  handle-Grown :
      (c : MainChain) (e : Event)
      → IsValid fl fuel c
      → 0 < length c.blocks
      → length c.blocks < 2 ^ 64
      → Grown c (handle fl fuel c e)
  unfolding handle
  handle-Grown c (from_peer b) v some_blocks small =
      Taken-Grown c _ b v some_blocks small (receive_block-Taken c b (not_genesis c b some_blocks))
  handle-Grown c (from_miner b n) v some_blocks small =
      Taken-Grown c _ b v some_blocks small (accept_mined-Taken c b n)

  -- From a valid chain that is not empty, with room for the blocks in uint64_t: in whatever order
  -- blocks of peers and of the own miner come in, and whatever is in them, the chain is valid after
  -- them: linked by its hashes from the genesis block, with witnesses that solve the instances
  -- of the hashes before them, and with balances that add up to the supply.
  pub run-IsValid :
      (c : MainChain) (events : List Event)
      → IsValid fl fuel c
      → 0 < length c.blocks
      → length c.blocks + length events < 2 ^ 64
      → IsValid fl fuel (run fl fuel c events)
  unfolding run Grown
  run-IsValid c [] v some_blocks small = v
  run-IsValid c (e ∷ es) v some_blocks small =
      let (v1, some1, longer) = handle-Grown c e v some_blocks (omega arith) in
      run-IsValid (handle fl fuel c e) es v1 some1 (omega (arith, longer))
