-- ===== src/Testnet/Disk/Load.antt =====
-- A chain that `load_from_disk` accepts is valid, whatever the file holds.
use npchain.Base.{
  ℕ, zero, suc, ◌≡◌, inl, inr, refl, sym, ◌∙◌, total, true, false, some, List, [], ◌∷◌, length,
  Bytes, bytes_eq, bytes_eq→eq, All, All-append, both, arith, Bool-cases, Option-cases, ◌==◌,
  ==_iff, Floats,
}
use npchain.Crypto.Hash.{zero_hash}
use npchain.Ponw.Sat.{SatInstance, verify}
use npchain.Testnet.Block.{Block, compute_hash}
use npchain.Testnet.Chain.{ChainState, back, append}
use npchain.Testnet.Chain.Links.{IsLinked, last_hash, Linked-snoc, tip_of}
use npchain.Testnet.Chain.Supply.{Balanced, append-Balanced}
use npchain.Testnet.Disk.{
  chains_to, verified_by, revalidate, load_block, load_blocks, load_from_disk, header, cleared,
}
use npchain.Testnet.Instance.{generate_instance}

-- The block's witness solves the instance that its previous hash and difficulty generate.
abbrev pub Solves : Floats → ℕ → Block → Type 0
Solves fl fuel b =
    (inst : SatInstance) × (generate_instance fl fuel b.prev_hash b.difficulty ≡ some inst)
    × (verify inst b.witness ≡ true)

pub record IsValid (fl : Floats) (fuel : ℕ) (c : ChainState) : Type 0 where
  pub linked : IsLinked c
  pub solved : All (Solves fl fuel) c.blocks
  pub balanced : Balanced c

pub verified_by-Solves :
    (fl : Floats) (fuel : ℕ) (b : Block)
    → verified_by (generate_instance fl fuel b.prev_hash b.difficulty) b.witness ≡ true
    → Solves fl fuel b
verified_by-Solves fl fuel b h =
    elim (Option-cases (generate_instance fl fuel b.prev_hash b.difficulty)) [
      | inl e ↦ absurd (cc (rw e at h))
      | inr (inst, e) ↦ (inst, e, rw e at h)
    ]

chains_to-last_hash :
    (blocks : List Block) (b : Block)
    → chains_to blocks b ≡ true
    → b.height ≡ length blocks
    → b.prev_hash ≡ last_hash zero_hash blocks
unfolding chains_to
chains_to-last_hash [] b h e =
    let zero_height : (b.height == 0) ≡ true = ground arith in
    bytes_eq→eq b.prev_hash zero_hash (rw zero_height at h)
chains_to-last_hash (a ∷ blocks) b h e =
    let later : (b.height == 0) ≡ false = ground arith in
    bytes_eq→eq b.prev_hash (back (a ∷ blocks)).hash (rw later at h) ∙ tip_of (a ∷ blocks)

revalidate_parts :
    (fl : Floats) (fuel : ℕ) (blocks : List Block) (b : Block)
    → revalidate fl fuel blocks b ≡ true
    → (b.hash ≡ compute_hash b)
      × (b.prev_hash ≡ last_hash zero_hash blocks)
      × (b.height ≡ length blocks)
      × Solves fl fuel b
unfolding revalidate
revalidate_parts fl fuel blocks b h =
    let (hash, h1) = both (bytes_eq (compute_hash b) b.hash) _ h in
    let (chain, h2) = both (chains_to blocks b) _ h1 in
    let (at, solves) = both (b.height == length blocks) _ h2 in
    let e : b.height ≡ length blocks = (==_iff b.height (length blocks)).0 at in
    (
      sym (bytes_eq→eq (compute_hash b) b.hash hash),
      chains_to-last_hash blocks b chain e,
      e,
      verified_by-Solves fl fuel b solves,
    )

append-IsValid :
    (fl : Floats) (fuel : ℕ) (c : ChainState) (b : Block)
    → IsValid fl fuel c
    → revalidate fl fuel c.blocks b ≡ true
    → IsValid fl fuel (append c b)
unfolding append
append-IsValid fl fuel c b v h =
    let (hash, prev, at, solves) = revalidate_parts fl fuel c.blocks b h in
    record {
      linked = Linked-snoc zero_hash 0 c.blocks b v.linked prev (omega arith) hash;
      solved = All-append (Solves fl fuel) c.blocks (b ∷ []) v.solved (solves, tt);
      balanced = append-Balanced c b v.balanced;
    }

load_blocks-IsValid :
    (fl : Floats) (fuel count : ℕ) (bs : Bytes) (c : ChainState)
    → IsValid fl fuel c
    → IsValid fl fuel (load_blocks fl fuel count bs c).0
unfolding load_blocks
load_blocks-IsValid fl fuel zero bs c v = v
load_blocks-IsValid fl fuel (suc count) bs c v = elim (Option-cases (load_block bs)) [
  | inl e ↦ rw (e, load_blocks) v
  | inr ((b, rest), e) ↦
      rw (e, load_blocks)
        (elim (Bool-cases (revalidate fl fuel c.blocks b)) [
          | inl fine ↦ rw fine (
              load_blocks-IsValid fl fuel count rest (append c b)
                (append-IsValid fl fuel c b v fine))
          | inr refused ↦ rw refused v
        ])
]

-- Whatever the file and the state before: a chain that `load_from_disk` accepts is a hash chain
-- from a genesis block at height 0, every witness solves the instance that its block generates, and
-- the balances add up to the supply.
pub load_from_disk-IsValid :
    (fl : Floats) (fuel : ℕ) (file : Bytes) (c : ChainState)
    → (load_from_disk fl fuel file c).1 ≡ true
    → IsValid fl fuel (load_from_disk fl fuel file c).0
unfolding load_from_disk total
load_from_disk-IsValid fl fuel file c h = elim (Option-cases (header file)) [
  | inl e ↦ absurd (cc (rw (e, load_from_disk) at h))
  | inr ((count, bs), e) ↦
      rw (e, load_from_disk)
        (load_blocks-IsValid fl fuel count bs (cleared c)
          (record { linked = tt; solved = tt; balanced = refl }))
]
