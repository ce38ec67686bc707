-- ===== src/Testnet/Peers.antt =====
-- The messages of src/p2p.hpp: what `handle_message` does to the peer, to the chain behind the
-- callbacks of the node, and what it sends. A peer's socket, its address and its thread are left
-- out, and so are the lines that print.
pub mod Safe
pub mod Sync
use npchain.Base.{
  ℕ, zero, suc, ◌+◌, ◌%◌, ◌^◌, min, Bool, true, false, not, ◌&&◌, ◌||◌, Option, none, some, List,
  [], ◌∷◌, ◌++◌, length, take, drop, Bytes, bytes_eq, to_le, from_le, read, read_uint, require, leb,
  ltb, ◌==◌, if◌then◌else◌, Floats, ◌>>=◌, ◌>>◌,
}
use npchain.Crypto.Hash.{Hash256, zero_hash}
use npchain.Testnet.Block.{Block}
use npchain.Testnet.Block.Wire.{MsgType, build_message, block_to_wire, wire_to_block}
use npchain.Testnet.Chain.{ChainState}
use npchain.Testnet.Node.{receive_block, get_chain}
use npchain.Testnet.RateLimiter.{seconds_since}

pub record Peer : Type 0 where
  pub chain_height : ℕ
  pub best_hash : Hash256
  pub listen_port : ℕ
  pub miner_addr : Bytes
  pub hello_sent : Bool
  pub hello_received : Bool
  pub sync_failures : ℕ
  pub last_sync_attempt : ℕ

-- The members of `P2PManager` that messages use.
pub record Manager : Type 0 where
  pub listen_port : ℕ
  pub miner_addr : Bytes
  pub local_height : ℕ
  pub local_tip : Hash256

-- One connection: `sent` holds the messages to the peer, in order.
pub record Session : Type 0 where
  pub manager : Manager
  pub peer : Peer
  pub chain : ChainState
  pub sent : List Bytes

abbrev pub send : MsgType → Bytes → Session → Session
send type payload s = record s { sent = s.sent ++ (build_message type payload ∷ []) }

unfoldable pub send_hello : Session → Session
send_hello s =
    let m = s.manager in
    send MsgType.hello
      (to_le 8 m.local_height
        ++ (m.local_tip
            ++ (to_le 2 m.listen_port ++ (to_le 2 (length m.miner_addr) ++ m.miner_addr))))
      s

unfoldable pub request_blocks : ℕ → Session → Session
request_blocks from_height s = send MsgType.get_blocks (to_le 8 from_height) s

-- Each block after its size.
unfoldable pub push_blocks : List Block → Bytes
push_blocks [] = []
push_blocks (b ∷ bs) =
    let wire = block_to_wire b in to_le 4 (length wire) ++ (wire ++ push_blocks bs)

unfoldable pub send_blocks : ℕ → Session → Session
send_blocks from_height s = elim (get_chain s.chain from_height) [
  | [] ↦ s
  | b ∷ bs ↦ send MsgType.blocks (to_le 4 (length (b ∷ bs)) ++ push_blocks (b ∷ bs)) s
]

-- The fields of a hello, of 44 bytes at least.
unfoldable pub greet : Bytes → Peer → Peer
greet payload peer =
    let alen = from_le (take 2 (drop 42 payload)) in
    record peer {
      chain_height = from_le (take 8 payload);
      best_hash = take 32 (drop 8 payload);
      listen_port = from_le (take 2 (drop 40 payload));
      miner_addr =
          if leb (44 + alen) (length payload) then take alen (drop 44 payload) else peer.miner_addr;
      hello_received = true;
    }

-- Seconds to wait after that many failures.
unfoldable pub backoff : ℕ → ℕ
backoff sync_failures = min 30 (2 ^ min sync_failures 5)

abbrev pub first_missing : Manager → ℕ
first_missing m =
    if m.local_height == 0 && bytes_eq m.local_tip zero_hash
    then 0
    else (m.local_height + 1) % 2 ^ 64

-- Blocks are requested from a peer with a longer chain, unless it is too early to try again.
unfoldable pub sync : ℕ → Session → Session
sync now s =
    if ltb s.manager.local_height s.peer.chain_height
    then if leb (backoff s.peer.sync_failures) (seconds_since s.peer.last_sync_attempt now)
      then request_blocks (first_missing s.manager)
          (record s { peer = record (s.peer) { last_sync_attempt = now } })
      else s
    else s

abbrev pub answer_hello : Session → Session
answer_hello s =
    if s.peer.hello_sent
    then s
    else send_hello (record s { peer = record (s.peer) { hello_sent = true } })

unfoldable pub on_hello : ℕ → Bytes → Session → Session
on_hello now payload s =
    if ltb (length payload) 44
    then s
    else answer_hello (sync now (record s { peer = greet payload s.peer }))

unfoldable pub on_get_blocks : Bytes → Session → Session
on_get_blocks payload s =
    if ltb (length payload) 8 then s else send_blocks (from_le (take 8 payload)) s

-- The height and the hash that a hello announces, once a block is accepted.
abbrev pub advance : Block → Manager → Manager
advance b m =
    if ltb m.local_height b.height
    then record m { local_height = b.height; local_tip = b.hash }
    else m

-- The size and the bytes of the next block.
unfoldable pub next_wire : Bytes → Option (Bytes × Bytes)
next_wire payload = do
  (blen, rest) ← read_uint 4 payload
  require (leb blen 100_000)
  read blen rest

-- The length and the bytes of the next message.
unfoldable pub next_message : Bytes → Option (Bytes × Bytes)
next_message stream = do
  (msg_len, rest) ← read_uint 4 stream
  require (not (msg_len == 0 || ltb 10_000_000 msg_len))
  read msg_len rest

abbrev pub record_sync : ℕ → ℕ → Peer → Peer
record_sync count accepted peer =
    if ltb 0 accepted
    then record peer { sync_failures = 0 }
    else if ltb 0 count
    then record peer { sync_failures = (peer.sync_failures + 1) % 2 ^ 32 }
    else peer

module _ (fl : Floats) (fuel : ℕ) where
  -- A block of the peer, given to the callback.
  unfoldable pub on_block : Bytes → Session → Session × Bool
  on_block wire s = elim (wire_to_block wire) [
    | none ↦ (s, false)
    | some b ↦
        let (chain, accepted) = receive_block fl fuel s.chain b in
        let s' = record s { chain = chain } in
        if accepted then (record s' { manager = advance b s.manager }, true) else (s', false)
  ]

  -- The blocks that are left, and the number of those that are accepted.
  unfoldable pub blocks_loop : ℕ → Bytes → Session → Session × ℕ
  blocks_loop zero payload s = (s, 0)
  blocks_loop (suc left) payload s = elim (next_wire payload) [
    | none ↦ (s, 0)
    | some (wire, rest) ↦
        let (s1, ok) = on_block wire s in
        let (s2, accepted) = blocks_loop left rest s1 in (s2, if ok then accepted + 1 else accepted)
  ]

  unfoldable pub on_blocks : Bytes → Session → Session
  on_blocks payload s =
      let count = from_le (take 4 payload) in
      let (s', accepted) = blocks_loop count (drop 4 payload) s in
      if ltb (length payload) 4
      then s
      else if ltb 1000 count
      then s
      else record s' { peer = record_sync count accepted (s'.peer) }

  unfoldable pub handle_message : ℕ → ℕ → Bytes → Session → Session
  handle_message now type payload s =
      if type == 0x01
      then on_hello now payload s
      else if type == 0x02
      then on_get_blocks payload s
      else if type == 0x03
      then on_blocks payload s
      else if type == 0x04
      then (on_block payload s).0
      else if type == 0x05
      then send MsgType.pong [] s
      else s

  -- The thread of a peer, over the bytes that it sends and the times of its messages.
  unfoldable pub peer_recv_loop : List ℕ → Bytes → Session → Session
  peer_recv_loop [] stream s = s
  peer_recv_loop (now ∷ times) stream s = elim (next_message stream) [
    | none ↦ s
    | some ([], rest) ↦ s
    | some (type ∷ payload, rest) ↦ peer_recv_loop times rest (handle_message now type payload s)
  ]
