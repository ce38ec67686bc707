-- ===== src/Testnet/Peers/Safe.antt =====
-- No peer breaks the chain, whatever bytes it sends.
use npchain.Base.{
  ℕ, zero, suc, ◌+◌, ◌*◌, ◌^◌, ◌<◌, ◌≤◌, ◌≡◌, inl, inr, refl, List, [], ◌∷◌, length, length-append,
  drop, take, from_le, Bytes, ltb, ◌==◌, Floats, Bool-cases, Option-cases, arith, subst, sym, ◌∙◌,
  ◌⊎◌,
}
use npchain.Testnet.Block.{Block}
use npchain.Testnet.Block.Wire.{wire_to_block}
use npchain.Testnet.Chain.{ChainState, append, hashed}
use npchain.Testnet.Disk.Load.{IsValid}
use npchain.Testnet.Node.{receive_block, get_chain}
use npchain.Testnet.Node.Receive.{receive_block-cases, receive_block-IsValid}
use npchain.Testnet.Peers.{
  Session, send_hello, request_blocks, send_blocks, greet, sync, answer_hello, on_hello,
  on_get_blocks, next_wire, next_message, on_block, blocks_loop, on_blocks, handle_message,
  peer_recv_loop,
}

sync-chain : (now : ℕ) (s : Session) → (sync now s).chain ≡ s.chain
unfolding sync request_blocks
sync-chain now s = ground arith

answer_hello-chain : (s : Session) → (answer_hello s).chain ≡ s.chain
unfolding send_hello
answer_hello-chain s = ground arith

on_hello-chain :
    (now : ℕ) (payload : Bytes) (s : Session) → (on_hello now payload s).chain ≡ s.chain
unfolding on_hello
on_hello-chain now payload s =
    let greeted = record s { peer = greet payload s.peer } in
    elim (Bool-cases (ltb (length payload) 44)) [
      | inl short ↦ rw short refl
      | inr long ↦ rw long (answer_hello-chain (sync now greeted) ∙ sync-chain now greeted)
    ]

List-cases : (bs : List Block) → (bs ≡ []) ⊎ ((b : Block) × (rest : List Block) × (bs ≡ b ∷ rest))
List-cases [] = inl refl
List-cases (b ∷ bs) = inr (b, bs, refl)

send_blocks-chain : (from : ℕ) (s : Session) → (send_blocks from s).chain ≡ s.chain
unfolding send_blocks
send_blocks-chain from s = elim (List-cases (get_chain s.chain from)) [
  | inl e ↦ rw (e, send_blocks) refl
  | inr (b, bs, e) ↦ rw (e, send_blocks) refl
]

on_get_blocks-chain : (payload : Bytes) (s : Session) → (on_get_blocks payload s).chain ≡ s.chain
unfolding on_get_blocks
on_get_blocks-chain payload s = elim (Bool-cases (ltb (length payload) 8)) [
  | inl short ↦ rw short refl
  | inr long ↦ rw long (send_blocks-chain (from_le (take 8 payload)) s)
]

module _ (fl : Floats) (fuel : ℕ) where
  -- A valid chain with a genesis block and room for `n` blocks more.
  abbrev HasRoom : ℕ → ChainState → Type 0
  HasRoom n c = IsValid fl fuel c × (0 < length c.blocks) × (length c.blocks + n ≤ 2 ^ 64)

  HasRoom-le : (m n : ℕ) (c : ChainState) → n ≤ m → HasRoom m c → HasRoom n c
  HasRoom-le m n c le (valid, nonempty, room) = (valid, nonempty, omega arith)

  receive_block-HasRoom :
      (n : ℕ) (c : ChainState) (b : Block)
      → HasRoom (suc n) c
      → HasRoom n (receive_block fl fuel c b).0
  receive_block-HasRoom n c b (valid, nonempty, room) =
      let after = receive_block-IsValid fl fuel c b valid (omega arith) (inl nonempty) in
      elim (receive_block-cases fl fuel c b) [
        | inl e ↦ rw e (valid, nonempty, omega arith)
        | inr received ↦
            let longer = length-append c.blocks (hashed b ∷ []) in
            (
              after,
              rw (received.after b.reward) (unfold append in omega (arith, longer)),
              rw (received.after b.reward) (unfold append in omega (arith, longer)),
            )
      ]

  on_block-HasRoom :
      (n : ℕ) (wire : Bytes) (s : Session)
      → HasRoom (suc n) s.chain
      → HasRoom n (on_block fl fuel wire s).0.chain
  unfolding on_block
  on_block-HasRoom n wire s room = elim (Option-cases (wire_to_block wire)) [
    | inl e ↦ rw (e, on_block) (HasRoom-le (suc n) n s.chain (omega arith) room)
    | inr (b, e) ↦
        let after = receive_block-HasRoom n s.chain b room in
        elim (Bool-cases (receive_block fl fuel s.chain b).1) [
          | inl ok ↦ rw (e, ok, on_block) after
          | inr refused ↦ rw (e, refused, on_block) after
        ]
  ]

  blocks_loop-HasRoom :
      (left n : ℕ) (payload : Bytes) (s : Session)
      → HasRoom (left + n) s.chain
      → HasRoom n (blocks_loop fl fuel left payload s).0.chain
  unfolding blocks_loop
  blocks_loop-HasRoom zero n payload s room = HasRoom-le (zero + n) n s.chain (omega arith) room
  blocks_loop-HasRoom (suc left) n payload s room = elim (Option-cases (next_wire payload)) [
    | inl e ↦ rw (e, blocks_loop) (HasRoom-le (suc left + n) n s.chain (omega arith) room)
    | inr ((wire, rest), e) ↦
        let room' = HasRoom-le (suc left + n) (suc (left + n)) s.chain (omega arith) room in
        rw (e, blocks_loop)
          (blocks_loop-HasRoom left n rest (on_block fl fuel wire s).0
            (on_block-HasRoom (left + n) wire s room'))
  ]

  on_blocks-HasRoom :
      (n : ℕ) (payload : Bytes) (s : Session)
      → HasRoom (1000 + n) s.chain
      → HasRoom n (on_blocks fl fuel payload s).chain
  unfolding on_blocks
  on_blocks-HasRoom n payload s room =
      let count = from_le (take 4 payload) in
      let same = HasRoom-le (1000 + n) n s.chain (omega arith) room in
      elim (Bool-cases (ltb (length payload) 4)) [
        | inl short ↦ rw short same
        | inr long ↦ elim (Bool-cases (ltb 1000 count)) [
          | inl many ↦ rw (long, many) same
          | inr few ↦
              rw (long, few)
                (blocks_loop-HasRoom count n (drop 4 payload) s
                  (HasRoom-le (1000 + n) (count + n) s.chain (ground arith) room))
        ]
      ]

  handle_message-HasRoom :
      (n now type : ℕ) (payload : Bytes) (s : Session)
      → HasRoom (1000 + n) s.chain
      → HasRoom n (handle_message fl fuel now type payload s).chain
  unfolding handle_message
  handle_message-HasRoom n now type payload s room =
      let same = HasRoom-le (1000 + n) n s.chain (omega arith) room in
      let one = HasRoom-le (1000 + n) (suc n) s.chain (omega arith) room in
      let kept : (s' : Session) → s'.chain ≡ s.chain → HasRoom n s'.chain =
        λ s' e. subst (HasRoom n) (sym e) same in
      elim (Bool-cases (type == 1)) [
        | inl t1 ↦ rw t1 (kept (on_hello now payload s) (on_hello-chain now payload s))
        | inr f1 ↦ elim (Bool-cases (type == 2)) [
          | inl t2 ↦ rw (f1, t2) (kept (on_get_blocks payload s) (on_get_blocks-chain payload s))
          | inr f2 ↦ elim (Bool-cases (type == 3)) [
            | inl t3 ↦ rw (f1, f2, t3) (on_blocks-HasRoom n payload s room)
            | inr f3 ↦ elim (Bool-cases (type == 4)) [
              | inl t4 ↦ rw (f1, f2, f3, t4) (on_block-HasRoom n payload s one)
              | inr f4 ↦ elim (Bool-cases (type == 5)) [
                | inl t5 ↦ rw (f1, f2, f3, f4, t5) same
                | inr f5 ↦ rw (f1, f2, f3, f4, f5) same
              ]
            ]
          ]
        ]
      ]

  peer_recv_loop-HasRoom :
      (n : ℕ) (times : List ℕ) (stream : Bytes) (s : Session)
      → HasRoom (1000 * length times + n) s.chain
      → HasRoom n (peer_recv_loop fl fuel times stream s).chain
  unfolding peer_recv_loop
  peer_recv_loop-HasRoom n [] stream s room = HasRoom-le _ n s.chain (omega arith) room
  peer_recv_loop-HasRoom n (now ∷ times) stream s room =
      let same = HasRoom-le (1000 * length (now ∷ times) + n) n s.chain (omega arith) room in
      elim (Option-cases (next_message stream)) [
        | inl e ↦ rw (e, peer_recv_loop) same
        | inr (([], rest), e) ↦ rw (e, peer_recv_loop) same
        | inr ((type ∷ payload, rest), e) ↦
            let room' =
              HasRoom-le (1000 * length (now ∷ times) + n) (1000 + (1000 * length times + n))
                s.chain (omega arith) room in
            rw (e, peer_recv_loop)
              (peer_recv_loop-HasRoom n times rest (handle_message fl fuel now type payload s)
                (handle_message-HasRoom (1000 * length times + n) now type payload s room'))
      ]

  -- On a valid chain that is not empty, with room for 1000 blocks for each message: whatever bytes a
  -- peer sends as its messages, at whatever times, the chain is valid after them.
  pub peer_recv_loop-IsValid :
      (times : List ℕ) (stream : Bytes) (s : Session)
      → IsValid fl fuel s.chain
      → 0 < length s.chain.blocks
      → length s.chain.blocks + 1000 * length times ≤ 2 ^ 64
      → IsValid fl fuel (peer_recv_loop fl fuel times stream s).chain
  peer_recv_loop-IsValid times stream s valid nonempty room =
      (peer_recv_loop-HasRoom 0 times stream s (valid, nonempty, omega arith)).0
