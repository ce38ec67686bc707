-- ===== src/Testnet/Disk/RoundTrip.antt =====
-- A node that saves its chain and starts again has the same chain.
use npchain.Base.{
  ℕ, zero, suc, ◌+◌, ◌/◌, ◌%◌, ◌^◌, ◌<◌, ◌≡◌, refl, ap, sym, subst, ◌∙◌, true, false, some, List,
  [], ◌∷◌, ◌++◌, length, length-append, take, Bytes, bytes_eq, bytes_eq_refl, All, arith, ◌==◌,
  Floats, read-append, read_uint-to_le, to_le,
}
use npchain.Crypto.Hash.{Hash256, zero_hash}
use npchain.Testnet.Block.{Block, compute_hash}
use npchain.Testnet.Block.Bits.{pack_bits, length-pack_bits, unpack_bits-pack_bits}
use npchain.Testnet.Block.Wire.{push_variable}
use npchain.Testnet.Block.Wire.RoundTrip.{FitsFixed, read_fixed-push_fixed}
use npchain.Testnet.Chain.{ChainState, empty_chain, back, append}
use npchain.Testnet.Chain.Links.{Linked, last_hash, tip_of}
use npchain.Testnet.Disk.{
  magic, save_block, save_blocks, save_to_disk, load_block, chains_to, revalidate, load_blocks,
  load_from_disk, header,
}
use npchain.Testnet.Disk.Load.{Solves}

-- The sizes that the file has room for.
pub record Saveable (b : Block) : Type 0 where
  pub fixed : FitsFixed b
  pub witness : length b.witness < 2 ^ 32
  pub miner_address : length b.miner_address < 2 ^ 16

take_all : (n : ℕ) (xs : Bytes) → length xs ≡ n → take n xs ≡ xs
take_all zero [] e = refl
take_all zero (x ∷ xs) e = absurd (omega arith)
take_all (suc n) [] e = refl
take_all (suc n) (x ∷ xs) e = ap (◌∷◌ x) (take_all n xs (omega arith))

load_block-save_block :
    (b : Block) (rest : Bytes) → Saveable b → load_block (save_block b rest) ≡ some (b, rest)
unfolding load_block save_block push_variable
load_block-save_block b rest s =
    let wsize : length b.witness % 2 ^ 32 ≡ length b.witness = omega (arith, s.witness) in
    let alen : length b.miner_address % 2 ^ 16 ≡ length b.miner_address =
      omega (arith, s.miner_address) in
    rw (wsize, alen, take_all (length b.miner_address) b.miner_address refl)
      (rw (read_fixed-push_fixed b _ s.fixed) (
        rw (
          read_uint-to_le 4 (length b.witness) _ (omega (arith, s.witness)),
          read-append ((length b.witness + 7) / 8) (pack_bits (length b.witness) b.witness) _
              (length-pack_bits (length b.witness) b.witness),
          read_uint-to_le 2 (length b.miner_address) _ (omega (arith, s.miner_address)),
          read-append (length b.miner_address) b.miner_address rest refl,
          unpack_bits-pack_bits b.witness,
        )))

last_hash-chains_to :
    (blocks : List Block) (b : Block)
    → b.prev_hash ≡ last_hash zero_hash blocks
    → b.height ≡ length blocks
    → chains_to blocks b ≡ true
unfolding chains_to
last_hash-chains_to [] b p e =
    let zero_height : (b.height == 0) ≡ true = ground arith in
    rw (zero_height, p, bytes_eq_refl zero_hash)
last_hash-chains_to (a ∷ blocks) b p e =
    let later : (b.height == 0) ≡ false = ground arith in
    let same : b.prev_hash ≡ (back (a ∷ blocks)).hash = p ∙ sym (tip_of (a ∷ blocks)) in
    rw (later, same, bytes_eq_refl (back (a ∷ blocks)).hash)

revalidate_complete :
    (fl : Floats) (fuel : ℕ) (blocks : List Block) (b : Block)
    → b.prev_hash ≡ last_hash zero_hash blocks
    → b.height ≡ length blocks
    → b.hash ≡ compute_hash b
    → Solves fl fuel b
    → revalidate fl fuel blocks b ≡ true
unfolding revalidate
revalidate_complete fl fuel blocks b p e h (inst, generated, solves) =
    let at : (b.height == length blocks) ≡ true = ground arith in
    let hash : bytes_eq (compute_hash b) b.hash ≡ true =
      subst (λ k. bytes_eq (compute_hash b) k ≡ true) (sym h) (bytes_eq_refl (compute_hash b)) in
    rw (hash, last_hash-chains_to blocks b p e, at, generated, solves)

abbrev pub append_all : ChainState → List Block → ChainState
append_all c [] = c
append_all c (b ∷ bs) = append_all (append c b) bs

last_hash-snoc :
    (prev : Hash256) (bs : List Block) (b : Block) → last_hash prev (bs ++ (b ∷ [])) ≡ b.hash
last_hash-snoc prev [] b = refl
last_hash-snoc prev (a ∷ bs) b = last_hash-snoc a.hash bs b

append_next :
    (c : ChainState) (b : Block) (bs : List Block)
    → Linked b.hash (suc (length c.blocks)) bs
    → Linked (last_hash zero_hash (append c b).blocks) (length (append c b).blocks) bs
unfolding append
append_next c b bs l =
    let e : suc (length c.blocks) ≡ length (c.blocks ++ (b ∷ [])) =
      omega (arith, length-append c.blocks (b ∷ [])) in
    subst (λ n. Linked (last_hash zero_hash (c.blocks ++ (b ∷ []))) n bs) e
      (subst (λ h. Linked h (suc (length c.blocks)) bs) (sym (last_hash-snoc zero_hash c.blocks b))
        l)

load_blocks-save_blocks :
    (fl : Floats) (fuel : ℕ) (bs : List Block) (c : ChainState)
    → All Saveable bs
    → Linked (last_hash zero_hash c.blocks) (length c.blocks) bs
    → All (Solves fl fuel) bs
    → load_blocks fl fuel (length bs) (save_blocks bs) c ≡ (append_all c bs, true)
unfolding load_blocks save_blocks
load_blocks-save_blocks fl fuel [] c s l v = refl
load_blocks-save_blocks fl fuel (b ∷ bs) c (s, ss) (p, e, h, l) (v, vs) =
    rw
      (
        load_block-save_block b (save_blocks bs) s,
        load_blocks,
        revalidate_complete fl fuel c.blocks b p e h v,
      )
      (load_blocks-save_blocks fl fuel bs (append c b) ss (append_next c b bs l) vs)

header-save_to_disk :
    (c : ChainState)
    → length c.blocks < 2 ^ 64
    → header (save_to_disk c) ≡ some (length c.blocks, save_blocks c.blocks)
unfolding header save_to_disk
header-save_to_disk c few = rw (
  read-append 4 magic (to_le 4 1 ++ (to_le 8 (length c.blocks) ++ save_blocks c.blocks)) refl,
  bytes_eq_refl magic,
  read_uint-to_le 4 1 (to_le 8 (length c.blocks) ++ save_blocks c.blocks) (omega arith),
  read_uint-to_le 8 (length c.blocks) (save_blocks c.blocks) (omega (arith, few)),
)

-- A chain that is linked from its genesis block, whose witnesses solve their instances and whose
-- state is that of its blocks appended one by one, as `add_block` and `load_from_disk` do: saved
-- and loaded into a new `ChainState`, it is accepted and the same.
pub load_from_disk-save_to_disk :
    (fl : Floats) (fuel : ℕ) (c : ChainState)
    → All Saveable c.blocks
    → length c.blocks < 2 ^ 64
    → Linked zero_hash 0 c.blocks
    → All (Solves fl fuel) c.blocks
    → c ≡ append_all empty_chain c.blocks
    → load_from_disk fl fuel (save_to_disk c) empty_chain ≡ (c, true)
unfolding load_from_disk
load_from_disk-save_to_disk fl fuel c s few l v replayed =
    rw (header-save_to_disk c few, load_from_disk)
      (load_blocks-save_blocks fl fuel c.blocks empty_chain s l v
        ∙ ap (λ x. (x, true)) (sym replayed))
