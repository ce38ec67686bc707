-- ===== src/Testnet/Chain/Accepts.antt =====
-- When `add_block` accepts a block.
use npchain.Base.{
  ◌+◌, ◌%◌, ◌^◌, ◌<◌, ◌≡◌, ◌⊎◌, inl, inr, true, false, not, ◌&&◌, bytes_eq, bytes_eq_iff, ltb, ◌==◌,
  Bool-cases, ltb→lt, arith,
}
use npchain.Testnet.Block.{Block}
use npchain.Testnet.Chain.{ChainState, height, tip_hash, append, hashed, add_block}

-- The next height and the hash of the tip; a block of height 0 is asked for neither.
abbrev pub Accepts : ChainState → Block → Type 0
Accepts c b =
    ((b.height ≡ (height c + 1) % 2 ^ 64) ⊎ (b.height ≡ 0))
    × (0 < b.height → b.prev_hash ≡ tip_hash c)

accepts_height :
    (c : ChainState) (b : Block)
    → (not (b.height == ((height c + 1) % 2 ^ 64)) && not (b.height == 0)) ≡ false
    → (b.height ≡ (height c + 1) % 2 ^ 64) ⊎ (b.height ≡ 0)
accepts_height c b e = elim (Bool-cases (b.height == 0)) [
  | inl zero_height ↦ inr (ground arith)
  | inr other ↦ inl (ground arith)
]

pub add_block-cases :
    (c : ChainState) (b : Block)
    → (add_block c b ≡ (c, false)) ⊎ (Accepts c b × (add_block c b ≡ (append c (hashed b), true)))
unfolding add_block
add_block-cases c b =
    elim (Bool-cases (not (b.height == ((height c + 1) % 2 ^ 64)) && not (b.height == 0))) [
      | inl wrong ↦ inl (rw wrong)
      | inr fine ↦ elim (Bool-cases (ltb 0 b.height && not (bytes_eq b.prev_hash (tip_hash c)))) [
        | inl wrong ↦ inl (rw (fine, wrong))
        | inr linked ↦ inr (
          (
            accepts_height c b fine,
            (λ lt. (bytes_eq_iff b.prev_hash (tip_hash c)).0 (ground arith)),
          ),
          rw (fine, linked),
        )
      ]
    ]

-- A block with the next height and the hash of the tip is accepted: appended with its hash, its
-- reward added to the supply and credited to its miner.
pub Accepts-add_block :
    (c : ChainState) (b : Block) → Accepts c b → add_block c b ≡ (append c (hashed b), true)
unfolding add_block
Accepts-add_block c b (heights, linked) =
    let fine : (not (b.height == ((height c + 1) % 2 ^ 64)) && not (b.height == 0)) ≡ false =
      elim heights [ inl e ↦ ground arith | inr e ↦ ground arith ] in
    rw fine (elim (Bool-cases (ltb 0 b.height)) [
      | inl lt ↦
          let same : bytes_eq b.prev_hash (tip_hash c) ≡ true =
            (bytes_eq_iff b.prev_hash (tip_hash c)).1 (linked (ltb→lt 0 b.height lt)) in
          rw (lt, same)
      | inr zero_height ↦ rw zero_height
    ])
