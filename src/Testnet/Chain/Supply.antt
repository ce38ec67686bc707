-- ===== src/Testnet/Chain/Supply.antt =====
-- The balances add up to the supply.
use npchain.Base.{
  ℕ, ◌+◌, ◌%◌, ◌^◌, ◌≡◌, refl, ◌∙◌, true, Bytes, bytes_eq, bytes_eq_iff, Dict, bytes_key, find,
  find_or, total, weight, total-assign, weight-find_or, find_or-assign, Bool-cases, if◌then◌else◌,
  arith, inl, inr,
}
use npchain.Testnet.Block.{Block}
use npchain.Testnet.Chain.Accepts.{add_block-cases}
use npchain.Testnet.Chain.{hashed, ChainState, credit, append, add_block, get_balance}

abbrev pub value : Bytes → ℕ → ℕ
value addr n = n

-- The sum of the balances and the supply are equal as uint64_t numbers.
abbrev pub Balanced : ChainState → Type 0
Balanced c = total value c.balances % 2 ^ 64 ≡ c.total_supply % 2 ^ 64

pub total-credit :
    (addr : Bytes) (amount : ℕ) (balances : Dict Bytes ℕ)
    → total value (credit addr amount balances) % 2 ^ 64 ≡ (total value balances + amount) % 2 ^ 64
unfolding credit
total-credit addr amount balances =
    let old = find_or 0 addr balances in
    let law = total-assign value addr ((old + amount) % 2 ^ 64) balances in
    let w : weight (value addr) (find addr balances) ≡ old =
      weight-find_or (value addr) addr 0 balances refl in
    omega (arith, law, w)

pub append-Balanced : (c : ChainState) (b : Block) → Balanced c → Balanced (append c b)
unfolding append
append-Balanced c b h = omega (arith, total-credit b.miner_address b.reward c.balances)

-- Whether `add_block` accepts the block or not, balances that add up to the supply (in uint64_t)
-- still do.
pub add_block-Balanced : (c : ChainState) (b : Block) → Balanced c → Balanced (add_block c b).0
add_block-Balanced c b h = elim (add_block-cases c b) [
  | inl e ↦ rw e h
  | inr (_, e) ↦ rw e (append-Balanced c (hashed b) h)
]

pub find_or-credit :
    (a b : Bytes) (amount : ℕ) (m : Dict Bytes ℕ)
    → find_or 0 b (credit a amount m)
      ≡ (if bytes_eq a b then (find_or 0 b m + amount) % 2 ^ 64 else find_or 0 b m)
unfolding credit
find_or-credit a b amount m =
    let law = find_or-assign 0 a b ((find_or 0 a m + amount) % 2 ^ 64) m in
    elim (Bool-cases (bytes_eq a b)) [
      | inl same ↦ let e : a ≡ b = (bytes_eq_iff a b).0 same in rw same (law ∙ rw same (rw e refl))
      | inr other ↦ rw other (law ∙ rw other)
    ]

-- `get_balance` after a block that `add_block` accepts: the reward is added (in uint64_t) to the
-- balance of the miner's address, and no other balance changes.
pub get_balance-add_block :
    (c : ChainState) (b : Block) (addr : Bytes)
    → (add_block c b).1 ≡ true
    → get_balance (add_block c b).0 addr ≡ (
        if bytes_eq b.miner_address addr
        then (get_balance c addr + b.reward) % 2 ^ 64
        else get_balance c addr)
get_balance-add_block c b addr h = elim (add_block-cases c b) [
  | inl e ↦ absurd (cc)
  | inr (_, e) ↦
      rw e (unfold get_balance append in find_or-credit b.miner_address addr b.reward c.balances)
]
