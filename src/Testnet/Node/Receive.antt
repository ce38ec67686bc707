-- ===== src/Testnet/Node/Receive.antt =====
-- What a block from a peer does to the chain.
use npchain.Base.{
  ℕ, ◌+◌, ◌%◌, ◌^◌, ◌<◌, ◌≡◌, ◌⊎◌, inl, inr, refl, ap, ◌∙◌, Bool, true, false, not, ◌&&◌, List, [],
  ◌∷◌, length, All, All-append, bytes_eq, bytes_eq→eq, both, ltb, ltb→lt, ◌==◌, ==_iff, arith,
  Bool-cases, Floats,
}
use npchain.Crypto.Hash.{zero_hash}
use npchain.Testnet.Block.{Block}
use npchain.Testnet.Chain.{ChainState, is_empty, height, tip_hash, append, hashed}
use npchain.Testnet.Chain.Accepts.{Accepts-add_block}
use npchain.Testnet.Chain.Links.{
  IsLinked, Linked-snoc, compute_hash-hashed, tip_hash-last_hash, IsLinked-height,
}
use npchain.Testnet.Chain.Supply.{append-Balanced}
use npchain.Testnet.Disk.Load.{Solves, IsValid, verified_by-Solves}
use npchain.Testnet.Node.{
  check_consecutive, check_stake, witness_valid, receive_genesis, receive_next, receive_block,
}

not-true : (b : Bool) → not b ≡ false → b ≡ true
not-true true h = refl
not-true false h = cc

-- The same block with another reward.
abbrev pub with_reward : ℕ → Block → Block
with_reward reward b = record b { reward = reward }

-- A block at the next index that names the tip and solves its instance keeps a chain linked from
-- genesis, with witnesses that solve their instances.
pub append-hashed-Chained :
    (fl : Floats) (fuel : ℕ) (c : ChainState) (b : Block)
    → IsLinked c
    → All (Solves fl fuel) c.blocks
    → b.height ≡ length c.blocks
    → b.prev_hash ≡ tip_hash c
    → Solves fl fuel b
    → IsLinked (append c (hashed b)) × All (Solves fl fuel) (append c (hashed b)).blocks
unfolding append
append-hashed-Chained fl fuel c b links solutions at linked solved = (
  Linked-snoc zero_hash 0 c.blocks (hashed b) links (linked ∙ tip_hash-last_hash c) (omega arith)
      (compute_hash-hashed b),
  All-append (Solves fl fuel) c.blocks (hashed b ∷ []) solutions (solved, tt),
)

pub append-hashed-IsValid :
    (fl : Floats) (fuel : ℕ) (c : ChainState) (b : Block)
    → IsValid fl fuel c
    → b.height ≡ length c.blocks
    → b.prev_hash ≡ tip_hash c
    → Solves fl fuel b
    → IsValid fl fuel (append c (hashed b))
append-hashed-IsValid fl fuel c b v at linked solved =
    let (links, solutions) = append-hashed-Chained fl fuel c b v.linked v.solved at linked solved in
    record {
      linked = links;
      solved = solutions;
      balanced = append-Balanced c (hashed b) v.balanced;
    }

module _ (fl : Floats) (fuel : ℕ) where
  -- A block that the callback accepts, and what it then does.
  pub record Received (c : ChainState) (b : Block) : Type 0 where
    pub at : ((b.height ≡ 0) × (is_empty c.blocks ≡ true)) ⊎ (b.height ≡ (height c + 1) % 2 ^ 64)
    pub linked : b.prev_hash ≡ tip_hash c
    pub solved : Solves fl fuel b
    pub after :
        (reward : ℕ)
        → receive_block fl fuel c (with_reward reward b)
          ≡ (append c (hashed (with_reward reward b)), true)

  receive_genesis-cases :
      (c : ChainState) (b : Block)
      → b.height ≡ 0
      → (receive_genesis fl fuel c b ≡ (c, false))
        ⊎ ((b.prev_hash ≡ zero_hash)
            × Solves fl fuel b
            × ((reward : ℕ)
                → receive_genesis fl fuel c (with_reward reward b)
                  ≡ (append c (hashed (with_reward reward b)), true)))
  unfolding receive_genesis
  receive_genesis-cases c b h = elim (Bool-cases (not (bytes_eq b.prev_hash zero_hash))) [
    | inl e ↦ inl (rw e)
    | inr e1 ↦ elim (Bool-cases (not (witness_valid fl fuel b))) [
      | inl e ↦ inl (rw (e1, e))
      | inr e2 ↦ inr (
        bytes_eq→eq b.prev_hash zero_hash (not-true _ e1),
        verified_by-Solves fl fuel b (not-true _ e2),
        (λ reward.
            rw (e1, e2)
              (Accepts-add_block c (with_reward reward b) (inr h, λ lt. absurd (omega arith)))),
      )
    ]
  ]

  receive_next-cases :
      (c : ChainState) (b : Block)
      → (receive_next fl fuel c b ≡ (c, false))
        ⊎ ((b.height ≡ (height c + 1) % 2 ^ 64)
            × (b.prev_hash ≡ tip_hash c)
            × Solves fl fuel b
            × ((reward : ℕ)
                → receive_next fl fuel c (with_reward reward b)
                  ≡ (append c (hashed (with_reward reward b)), true)))
  unfolding receive_next
  receive_next-cases c b = elim (Bool-cases (not (b.height == ((height c + 1) % 2 ^ 64)))) [
    | inl e ↦ inl (rw e)
    | inr e1 ↦ elim (Bool-cases (not (bytes_eq b.prev_hash (tip_hash c)))) [
      | inl e ↦ inl (rw (e1, e))
      | inr e2 ↦ elim (Bool-cases (not (check_consecutive c.blocks b.miner_address))) [
        | inl e ↦ inl (rw (e1, e2, e))
        | inr e3 ↦ elim (Bool-cases (not (check_stake c b.miner_address))) [
          | inl e ↦ inl (rw (e1, e2, e3, e))
          | inr e4 ↦ elim (Bool-cases (not (witness_valid fl fuel b))) [
            | inl e ↦ inl (rw (e1, e2, e3, e4, e))
            | inr e5 ↦
                let at : b.height ≡ (height c + 1) % 2 ^ 64 =
                  (==_iff b.height _).0 (not-true _ e1) in
                let prev : b.prev_hash ≡ tip_hash c =
                  bytes_eq→eq b.prev_hash (tip_hash c) (not-true _ e2) in
                inr (
                  at,
                  prev,
                  verified_by-Solves fl fuel b (not-true _ e5),
                  (λ reward.
                      rw (e1, e2, e3, e4, e5)
                        (Accepts-add_block c (with_reward reward b) (inl at, λ lt. prev))),
                )
          ]
        ]
      ]
    ]
  ]

  pub receive_block-cases :
      (c : ChainState) (b : Block) → (receive_block fl fuel c b ≡ (c, false)) ⊎ Received c b
  unfolding receive_block
  receive_block-cases c b = elim (Bool-cases (b.height == 0 && is_empty c.blocks)) [
    | inl genesis ↦
        let (zero_height, empty) = both (b.height == 0) (is_empty c.blocks) genesis in
        let h : b.height ≡ 0 = (==_iff b.height 0).0 zero_height in
        elim (receive_genesis-cases c b h) [
          | inl e ↦ inl (rw genesis e)
          | inr (prev, solves, e) ↦ inr (record {
            at = inl (h, empty);
            linked = prev ∙ unfold tip_hash in rw empty;
            solved = solves;
            after = λ reward. rw genesis (e reward);
          })
        ]
    | inr other ↦ elim (receive_next-cases c b) [
      | inl e ↦ inl (rw other e)
      | inr (at, prev, solves, e) ↦ inr (record {
        at = inr at;
        linked = prev;
        solved = solves;
        after = λ reward. rw other (e reward);
      })
    ]
  ]

  -- The reward of a peer's block is not looked at: a block that is accepted is accepted with every
  -- other reward too, and the supply grows by that reward (in uint64_t).
  pub receive_block_any_reward :
      (c : ChainState) (b : Block) (reward : ℕ)
      → (receive_block fl fuel c b).1 ≡ true
      → ((receive_block fl fuel c (with_reward reward b)).1 ≡ true)
        × ((receive_block fl fuel c (with_reward reward b)).0.total_supply
            ≡ (c.total_supply + reward) % 2 ^ 64)
  unfolding append
  receive_block_any_reward c b reward h = elim (receive_block-cases c b) [
    | inl e ↦ absurd (cc)
    | inr received ↦ rw (received.after reward) (refl, refl)
  ]

  empty_is : (bs : List Block) → is_empty bs ≡ true → bs ≡ []
  empty_is [] e = refl
  empty_is (b ∷ bs) e = absurd (cc)

  pub received_at :
      (c : ChainState) (b : Block)
      → IsLinked c
      → length c.blocks < 2 ^ 64
      → (0 < length c.blocks) ⊎ (b.height ≡ 0)
      → ((b.height ≡ 0) × (is_empty c.blocks ≡ true)) ⊎ (b.height ≡ (height c + 1) % 2 ^ 64)
      → b.height ≡ length c.blocks
  received_at c b l small some_blocks (inl (h, empty)) =
      omega (arith, ap length (empty_is c.blocks empty))
  received_at c b l small some_blocks (inr h) = elim (Bool-cases (ltb 0 (length c.blocks))) [
    | inl nonempty ↦ omega (arith, IsLinked-height c (ltb→lt 0 (length c.blocks) nonempty) l)
    | inr empty ↦ elim some_blocks [ inl lt ↦ absurd (ground arith) | inr z ↦ ground arith ]
  ]

  -- On a valid chain (linked from genesis, witnesses that solve their instances, balances that add
  -- up) that is not empty, or for a block of height 0: whatever a peer sends, the chain is valid
  -- after the callback.
  pub receive_block-IsValid :
      (c : ChainState) (b : Block)
      → IsValid fl fuel c
      → length c.blocks < 2 ^ 64
      → (0 < length c.blocks) ⊎ (b.height ≡ 0)
      → IsValid fl fuel (receive_block fl fuel c b).0
  unfolding append
  receive_block-IsValid c b v small some_blocks = elim (receive_block-cases c b) [
    | inl e ↦ rw e v
    | inr received ↦
        let at = received_at c b v.linked small some_blocks received.at in
        rw (received.after b.reward)
          (append-hashed-IsValid fl fuel c b v at received.linked received.solved)
  ]
