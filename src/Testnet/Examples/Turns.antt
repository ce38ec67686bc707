-- ===== src/Testnet/Examples/Turns.antt =====
-- Steps of the node around a turn of its mining loop.
use npchain.Base.{refl, arith, [], ◌∷◌, total, fractions, assign, find, place, find_or}
use npchain.Testnet.Block.{Block}
use npchain.Testnet.Chain.{append, hashed, credit}
use npchain.Testnet.Market.{empty_market}
use npchain.Testnet.Market.Escrow.{escrow}
use npchain.Testnet.Loop.{TestNode, from_peer, mined, services, posted, run}
use npchain.Testnet.Loop.Sound.{IsSound, Fits, run-IsSound}
use npchain.Testnet.Examples.Genesis.{genesis, one_block, one_block-IsLinked, genesis-Solves}
use npchain.Testnet.Examples.Civic.{request}

abbrev node : TestNode fractions
node = record {
  chain = one_block;
  governance = record { proposals = []; next_id = 1 };
  market = empty_market fractions;
  file = [];
  blocks_mined = 0;
}

abbrev second : Block
second = record genesis { height = 1; prev_hash = (hashed genesis).hash }

node-IsSound : IsSound fractions 5 node
unfolding append escrow total credit assign find place find_or
node-IsSound = record {
  linked = one_block-IsLinked;
  solutions = (genesis-Solves, tt);
  covered = refl;
}

run-IsSound_example :
    IsSound fractions 5
      (run fractions 5 node (posted request ∷ mined second ∷ from_peer second ∷ services ∷ []))
unfolding append Fits
run-IsSound_example =
    run-IsSound fractions 5 node (posted request ∷ mined second ∷ from_peer second ∷ services ∷ [])
      node-IsSound (omega arith, (tt, (tt, (tt, tt)))) (omega arith) (omega arith)
