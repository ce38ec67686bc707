-- ===== src/Testnet/Peers/Sync.antt =====
-- Blocks that one node sends reach the callback of the other.
use npchain.Base.{
  ℕ, ◌≤◌, ◌≡◌, refl, ◌∙◌, ap, true, false, some, List, [], ◌∷◌, ◌++◌, All, length, drop, take,
  Bytes, to_le, from_le, from_le-to_le, read_uint-to_le, read-append, leb, ltb, Floats, Bool-cases,
  arith, inl, inr,
}
use npchain.Testnet.Block.{Block}
use npchain.Testnet.Block.Wire.{block_to_wire}
use npchain.Testnet.Block.Wire.RoundTrip.{FitsFixed, wire_to_block-block_to_wire}
use npchain.Testnet.Chain.{ChainState}
use npchain.Testnet.Node.{receive_block}
use npchain.Testnet.Peers.{
  Session, push_blocks, next_wire, on_block, blocks_loop, on_blocks, handle_message,
}

-- A block within the limits of the wire.
pub record Sendable (b : Block) : Type 0 where
  pub fixed : FitsFixed b
  pub witness : length b.witness ≡ b.num_variables
  pub few_variables : b.num_variables ≤ 10000
  pub miner_address : length b.miner_address ≤ 200
  pub wire : length (block_to_wire b) ≤ 100_000

next_wire-push :
    (wire rest : Bytes)
    → length wire ≤ 100_000
    → next_wire (to_le 4 (length wire) ++ (wire ++ rest)) ≡ some (wire, rest)
unfolding next_wire
next_wire-push wire rest small =
    let fits : leb (length wire) 100_000 ≡ true = ground arith in
    rw (read_uint-to_le 4 (length wire) (wire ++ rest) (omega arith), fits)
      (read-append (length wire) wire rest refl)

module _ (fl : Floats) (fuel : ℕ) where
  -- The blocks given to the callback, one after the other.
  abbrev pub given : List Block → ChainState → ChainState
  given [] c = c
  given (b ∷ bs) c = given bs (receive_block fl fuel c b).0

  on_block-given :
      (b : Block) (s : Session)
      → Sendable b
      → (on_block fl fuel (block_to_wire b) s).0.chain ≡ (receive_block fl fuel s.chain b).0
  unfolding on_block
  on_block-given b s f =
      let parsed =
        wire_to_block-block_to_wire b f.fixed f.witness f.few_variables f.miner_address in
      elim (Bool-cases (receive_block fl fuel s.chain b).1) [
        | inl ok ↦ rw (parsed, ok, on_block) refl
        | inr refused ↦ rw (parsed, refused, on_block) refl
      ]

  blocks_loop-push_blocks :
      (bs : List Block) (s : Session)
      → All Sendable bs
      → (blocks_loop fl fuel (length bs) (push_blocks bs) s).0.chain ≡ given bs s.chain
  unfolding blocks_loop push_blocks
  blocks_loop-push_blocks [] s f = refl
  blocks_loop-push_blocks (b ∷ bs) s (first, f) =
      let wire = block_to_wire b in
      let next = next_wire-push wire (push_blocks bs) first.wire in
      rw (next, blocks_loop)
        (blocks_loop-push_blocks bs (on_block fl fuel wire s).0 f
          ∙ ap (given bs) (on_block-given b s first))

  take-to_le : (n : ℕ) (rest : Bytes) → take 4 (to_le 4 n ++ rest) ≡ to_le 4 n
  unfolding to_le
  take-to_le n rest = refl

  drop-to_le : (n : ℕ) (rest : Bytes) → drop 4 (to_le 4 n ++ rest) ≡ rest
  unfolding to_le
  drop-to_le n rest = refl

  length-counted : (n : ℕ) (rest : Bytes) → ltb (length (to_le 4 n ++ rest)) 4 ≡ false
  unfolding to_le
  length-counted n rest = ground arith

  -- At most 1000 blocks within the limits of the wire, as `send_blocks` puts them into a message:
  -- the node that handles the message gives them to its callback in order, and its chain is then
  -- the one that they lead to.
  pub handle_message-push_blocks :
      (now : ℕ) (bs : List Block) (s : Session)
      → length bs ≤ 1000
      → All Sendable bs
      → (handle_message fl fuel now 0x03 (to_le 4 (length bs) ++ push_blocks bs) s).chain
        ≡ given bs s.chain
  unfolding handle_message on_blocks
  handle_message-push_blocks now bs s few f =
      let count : from_le (to_le 4 (length bs)) ≡ length bs =
        from_le-to_le 4 (length bs) (omega arith) in
      let within : ltb 1000 (length bs) ≡ false = ground arith in
      rw (length-counted (length bs) (push_blocks bs)) (
        rw (take-to_le (length bs) (push_blocks bs), drop-to_le (length bs) (push_blocks bs))
          (rw count (rw within (blocks_loop-push_blocks bs s f))))
