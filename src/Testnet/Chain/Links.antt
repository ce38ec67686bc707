-- ===== src/Testnet/Chain/Links.antt =====
-- The blocks form a hash chain.
use npchain.Base.{
  ℕ, suc, ◌+◌, ◌%◌, ◌^◌, ◌<◌, ◌≡◌, ◌⊎◌, inl, inr, refl, sym, ◌∙◌, true, false, List, [], ◌∷◌, ◌++◌,
  length, last_or, last_or-snoc, arith, Bool-cases, ltb, ltb→lt, if◌then◌else◌,
}
use npchain.Crypto.Hash.{Hash256, zero_hash}
use npchain.Testnet.Block.{Block, default_block, serialize, compute_hash}
use npchain.Testnet.Chain.{ChainState, is_empty, back, tip_hash, height, append, hashed, add_block}
use npchain.Testnet.Chain.Accepts.{Accepts, Accepts-add_block}

-- Blocks that follow a block of hash `prev`, with heights from `n` on; each names the hash of the
-- one before it, and has the hash of its own header.
abbrev pub Linked : Hash256 → ℕ → List Block → Type 0
Linked prev n [] = Unit {0}
Linked prev n (b ∷ bs) =
    (b.prev_hash ≡ prev) × (b.height ≡ n) × (b.hash ≡ compute_hash b) × Linked b.hash (suc n) bs

-- A chain that starts with a genesis block: height 0, previous hash 0.
abbrev pub IsLinked : ChainState → Type 0
IsLinked c = Linked zero_hash 0 c.blocks

abbrev pub last_hash : Hash256 → List Block → Hash256
last_hash prev [] = prev
last_hash prev (b ∷ bs) = last_hash b.hash bs

last_hash-last_or : (d : Block) (bs : List Block) → last_hash d.hash bs ≡ (last_or bs d).hash
last_hash-last_or d [] = refl
last_hash-last_or d (b ∷ bs) = last_hash-last_or b bs

pub tip_of :
    (bs : List Block) → (if is_empty bs then zero_hash else (back bs).hash) ≡ last_hash zero_hash bs
tip_of [] = refl
tip_of (b ∷ bs) = sym (last_hash-last_or b bs)

pub tip_hash-last_hash : (c : ChainState) → tip_hash c ≡ last_hash zero_hash c.blocks
unfolding tip_hash
tip_hash-last_hash c = tip_of c.blocks

pub Linked-snoc :
    (prev : Hash256) (n : ℕ) (bs : List Block) (b : Block)
    → Linked prev n bs
    → b.prev_hash ≡ last_hash prev bs
    → b.height ≡ length bs + n
    → b.hash ≡ compute_hash b
    → Linked prev n (bs ++ (b ∷ []))
Linked-snoc prev n [] b l p h e = (p, omega arith, e, tt)
Linked-snoc prev n (a ∷ bs) b (lp, lh, le, l) p h e =
    (lp, lh, le, Linked-snoc a.hash (suc n) bs b l p (omega arith) e)

-- `compute_hash` does not read the field that `add_block` sets to it.
pub compute_hash-hashed : (b : Block) → (hashed b).hash ≡ compute_hash (hashed b)
unfolding compute_hash serialize
compute_hash-hashed b = refl

-- The height of a linked chain is one less than its length.
Linked-height :
    (prev : Hash256) (n : ℕ) (d : Block) (bs : List Block)
    → d.height + 1 ≡ n
    → Linked prev n bs
    → (last_or bs d).height + 1 ≡ length bs + n
Linked-height prev n d [] e l = omega arith
Linked-height prev n d (b ∷ bs) e (lp, lh, le, l) =
    omega (arith, Linked-height b.hash (suc n) b bs (omega arith) l)

height_of_Linked :
    (bs : List Block)
    → 0 < length bs
    → Linked zero_hash 0 bs
    → (if is_empty bs then 0 else (back bs).height) + 1 ≡ length bs
height_of_Linked [] lt l = absurd (omega arith)
height_of_Linked (b ∷ bs) lt (lp, lh, le, l) =
    omega (arith, Linked-height b.hash 1 b bs (omega arith) l)

pub IsLinked-height :
    (c : ChainState) → 0 < length c.blocks → IsLinked c → height c + 1 ≡ length c.blocks
unfolding height
IsLinked-height c lt l = height_of_Linked c.blocks lt l

next_height :
    (c : ChainState) (b : Block)
    → IsLinked c
    → b.height ≡ length c.blocks
    → length c.blocks < 2 ^ 64
    → (b.height ≡ (height c + 1) % 2 ^ 64) ⊎ (b.height ≡ 0)
next_height c b l h small = elim (Bool-cases (ltb 0 (length c.blocks))) [
  | inl some_blocks ↦ inl (omega (arith, IsLinked-height c (ltb→lt _ _ some_blocks) l))
  | inr no_blocks ↦ inr (ground arith)
]

-- On a linked chain, a block whose height is the number of blocks, which fits a uint64_t, and
-- whose previous hash is that of the tip is accepted, and the chain stays linked.
pub add_block-IsLinked :
    (c : ChainState) (b : Block)
    → IsLinked c
    → b.height ≡ length c.blocks
    → length c.blocks < 2 ^ 64
    → b.prev_hash ≡ tip_hash c
    → ((add_block c b).1 ≡ true) × IsLinked (add_block c b).0
unfolding append
add_block-IsLinked c b l h small p =
    let accepted : Accepts c b = (next_height c b l h small, λ lt. p) in
    rw (Accepts-add_block c b accepted) (
      refl,
      Linked-snoc zero_hash 0 c.blocks (hashed b) l (p ∙ tip_hash-last_hash c) (omega arith)
          (compute_hash-hashed b),
    )

Linked-last :
    (prev : Hash256) (n : ℕ) (bs : List Block) (b : Block)
    → Linked prev n (bs ++ (b ∷ []))
    → b.height ≡ length bs + n
Linked-last prev n [] b l = omega (arith, l.1)
Linked-last prev n (a ∷ bs) b l = omega (arith, Linked-last a.hash (suc n) bs b l.3)

snoc_not_empty : (bs : List Block) (b : Block) → is_empty (bs ++ (b ∷ [])) ≡ false
snoc_not_empty [] b = refl
snoc_not_empty (a ∷ bs) b = refl

-- A block of height 0 is accepted on any chain, whatever its previous hash: on one that has blocks
-- it is appended, the height falls to 0, and the chain is not linked.
pub add_block-genesis_again :
    (c : ChainState) (b : Block)
    → 0 < length c.blocks
    → b.height ≡ 0
    → ((add_block c b).1 ≡ true) × (height (add_block c b).0 ≡ 0) × ¬ IsLinked (add_block c b).0
unfolding height append
add_block-genesis_again c b some_blocks h =
    let accepted : Accepts c b = (inr h, λ lt. absurd (omega arith)) in
    rw (Accepts-add_block c b accepted) (
      rw (snoc_not_empty c.blocks (hashed b), last_or-snoc c.blocks (hashed b) default_block)
        (refl, h, λ l. absurd (omega (arith, Linked-last zero_hash 0 c.blocks (hashed b) l))))
