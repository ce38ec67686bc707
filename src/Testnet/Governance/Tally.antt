-- ===== src/Testnet/Governance/Tally.antt =====
-- The tallies of a proposal add up the balances of its voters, if these do not change.
use npchain.Base.{
  ℕ, ◌+◌, ◌-◌, ◌%◌, ◌^◌, ◌<◌, ◌≤◌, ◌≡◌, ◌≢◌, inl, inr, refl, ap, sym, ◌∙◌, ◌&&◌, ◌||◌, Option, none,
  some, List, [], ◌∷◌, Bytes, Dict, bytes_key, find, assign, total, weight, total-assign, All, ltb,
  ◌==◌, arith, Bool-cases,
}
use npchain.Testnet.Governance.{
  VoteChoice, Proposal, GovernanceState, is_active, undo_previous, apply_vote, record_vote, vote_on,
  cast_vote,
}

abbrev pub tally : VoteChoice → Proposal → ℕ
tally VoteChoice.approve p = p.votes_approve
tally VoteChoice.reject p = p.votes_reject
tally VoteChoice.abstain p = p.votes_abstain

-- What a vote for `choice` of weight `n` adds to the tally of `c`.
abbrev pub share : VoteChoice → ℕ → VoteChoice → ℕ
share VoteChoice.approve n VoteChoice.approve = n
share VoteChoice.reject n VoteChoice.reject = n
share VoteChoice.abstain n VoteChoice.abstain = n
share _ n _ = 0

-- Each tally is, in uint64_t, the sum of the balances of the addresses that made its choice.
abbrev pub Tallied : (Bytes → ℕ) → Proposal → Type 0
Tallied balance p =
    (c : VoteChoice) → tally c p ≡ total (λ addr. share c (balance addr)) p.voters % 2 ^ 64

tally-undo_previous :
    (c : VoteChoice) (before : Option VoteChoice) (n : ℕ) (p : Proposal)
    → tally c p < 2 ^ 64
    → tally c (undo_previous before n p) ≡ (tally c p + 2 ^ 64 - weight (share c n) before) % 2 ^ 64
unfolding undo_previous
tally-undo_previous VoteChoice.approve none n p lt = omega arith
tally-undo_previous VoteChoice.reject none n p lt = omega arith
tally-undo_previous VoteChoice.abstain none n p lt = omega arith
tally-undo_previous VoteChoice.approve (some VoteChoice.approve) n p lt = refl
tally-undo_previous VoteChoice.approve (some VoteChoice.reject) n p lt = omega arith
tally-undo_previous VoteChoice.approve (some VoteChoice.abstain) n p lt = omega arith
tally-undo_previous VoteChoice.reject (some VoteChoice.approve) n p lt = omega arith
tally-undo_previous VoteChoice.reject (some VoteChoice.reject) n p lt = refl
tally-undo_previous VoteChoice.reject (some VoteChoice.abstain) n p lt = omega arith
tally-undo_previous VoteChoice.abstain (some VoteChoice.approve) n p lt = omega arith
tally-undo_previous VoteChoice.abstain (some VoteChoice.reject) n p lt = omega arith
tally-undo_previous VoteChoice.abstain (some VoteChoice.abstain) n p lt = refl

tally-apply_vote :
    (c choice : VoteChoice) (n : ℕ) (p : Proposal)
    → tally c p < 2 ^ 64
    → tally c (apply_vote choice n p) ≡ (tally c p + share c n choice) % 2 ^ 64
unfolding apply_vote
tally-apply_vote VoteChoice.approve VoteChoice.approve n p lt = refl
tally-apply_vote VoteChoice.approve VoteChoice.reject n p lt = omega arith
tally-apply_vote VoteChoice.approve VoteChoice.abstain n p lt = omega arith
tally-apply_vote VoteChoice.reject VoteChoice.approve n p lt = omega arith
tally-apply_vote VoteChoice.reject VoteChoice.reject n p lt = refl
tally-apply_vote VoteChoice.reject VoteChoice.abstain n p lt = omega arith
tally-apply_vote VoteChoice.abstain VoteChoice.approve n p lt = omega arith
tally-apply_vote VoteChoice.abstain VoteChoice.reject n p lt = omega arith
tally-apply_vote VoteChoice.abstain VoteChoice.abstain n p lt = refl

voters-apply_vote :
    (choice : VoteChoice) (n : ℕ) (p : Proposal) → (apply_vote choice n p).voters ≡ p.voters
unfolding apply_vote
voters-apply_vote VoteChoice.approve n p = refl
voters-apply_vote VoteChoice.reject n p = refl
voters-apply_vote VoteChoice.abstain n p = refl

share-le : (c choice : VoteChoice) (n : ℕ) → share c n choice ≤ n
share-le VoteChoice.approve VoteChoice.approve n = omega arith
share-le VoteChoice.approve VoteChoice.reject n = omega arith
share-le VoteChoice.approve VoteChoice.abstain n = omega arith
share-le VoteChoice.reject VoteChoice.approve n = omega arith
share-le VoteChoice.reject VoteChoice.reject n = omega arith
share-le VoteChoice.reject VoteChoice.abstain n = omega arith
share-le VoteChoice.abstain VoteChoice.approve n = omega arith
share-le VoteChoice.abstain VoteChoice.reject n = omega arith
share-le VoteChoice.abstain VoteChoice.abstain n = omega arith

weight-le : (c : VoteChoice) (before : Option VoteChoice) (n : ℕ) → weight (share c n) before ≤ n
weight-le c none n = omega arith
weight-le c (some choice) n = share-le c choice n

abbrev with_voters : Dict Bytes VoteChoice → Proposal → Proposal
with_voters voters p = record p { voters = voters }

tally-with_voters :
    (c : VoteChoice) (m : Dict Bytes VoteChoice) (p : Proposal)
    → tally c (with_voters m p) ≡ tally c p
tally-with_voters VoteChoice.approve m p = refl
tally-with_voters VoteChoice.reject m p = refl
tally-with_voters VoteChoice.abstain m p = refl

record_vote-Tallied :
    (balance : Bytes → ℕ) (voter : Bytes) (choice : VoteChoice) (p : Proposal)
    → balance voter < 2 ^ 64
    → Tallied balance p
    → Tallied balance (record_vote voter choice (balance voter) p)
unfolding record_vote
record_vote-Tallied balance voter choice p small t c =
    let n = balance voter in
    let m = assign voter choice p.voters in
    let before = find voter p.voters in
    let u = with_voters m (undo_previous before n p) in
    let law = total-assign (λ addr. share c (balance addr)) voter choice p.voters in
    let undone = tally-undo_previous c before n p (omega (arith, t c)) in
    let kept = tally-with_voters c m (undo_previous before n p) in
    let voted = tally-apply_vote c choice n u (omega (arith, undone, kept)) in
    let sum : tally c (apply_vote choice n u) ≡ total (λ addr. share c (balance addr)) m % 2 ^ 64 =
      omega (arith, t c, law, undone, kept, voted, weight-le c before n) in
    sum
    ∙ ap (λ v. total (λ addr. share c (balance addr)) v % 2 ^ 64)
        (sym (voters-apply_vote choice n u))

vote_on-Tallied :
    (balance : Bytes → ℕ) (id : ℕ) (voter : Bytes) (choice : VoteChoice) (height : ℕ)
    (ps : List Proposal)
    → balance voter < 2 ^ 64
    → All (Tallied balance) ps
    → All (Tallied balance) (vote_on id voter choice (balance voter) height ps).0
unfolding vote_on
vote_on-Tallied balance id voter choice height [] small h = tt
vote_on-Tallied balance id voter choice height (p ∷ ps) small (t, ts) =
    elim (Bool-cases (p.id == id && is_active p.status)) [
      | inl found ↦
          rw found (elim (Bool-cases (ltb p.vote_end_height height || balance voter == 0)) [
            | inl late ↦ rw late (t, ts)
            | inr open_vote ↦ rw open_vote (record_vote-Tallied balance voter choice p small t, ts)
          ])
      | inr other ↦ rw other (t, vote_on-Tallied balance id voter choice height ps small ts)
    ]

-- Where each address votes with a balance that does not change (a uint64_t), every tally of every
-- proposal stays the sum of the balances of the addresses whose last vote made that choice: a
-- changed vote counts once.
pub cast_vote-Tallied :
    (balance : Bytes → ℕ) (g : GovernanceState) (id : ℕ) (voter : Bytes) (choice : VoteChoice)
    (height : ℕ)
    → balance voter < 2 ^ 64
    → All (Tallied balance) g.proposals
    → All (Tallied balance) (cast_vote g id voter choice (balance voter) height).0.proposals
unfolding cast_vote
cast_vote-Tallied balance g id voter choice height small h =
    vote_on-Tallied balance id voter choice height g.proposals small h

share_self : (c : VoteChoice) (n : ℕ) → share c n c ≡ n
share_self VoteChoice.approve n = refl
share_self VoteChoice.reject n = refl
share_self VoteChoice.abstain n = refl

share_other : (c choice : VoteChoice) (n : ℕ) → c ≢ choice → share c n choice ≡ 0
share_other VoteChoice.approve VoteChoice.approve n ne = absurd (ne refl)
share_other VoteChoice.approve VoteChoice.reject n ne = refl
share_other VoteChoice.approve VoteChoice.abstain n ne = refl
share_other VoteChoice.reject VoteChoice.approve n ne = refl
share_other VoteChoice.reject VoteChoice.reject n ne = absurd (ne refl)
share_other VoteChoice.reject VoteChoice.abstain n ne = refl
share_other VoteChoice.abstain VoteChoice.approve n ne = refl
share_other VoteChoice.abstain VoteChoice.reject n ne = refl
share_other VoteChoice.abstain VoteChoice.abstain n ne = absurd (ne refl)

-- A voter whose balance has grown past the tally of the choice that it made before: changing the
-- vote to another choice leaves that tally at 2 ^ 64 less the missing part.
pub record_vote_wraps :
    (voter : Bytes) (before choice : VoteChoice) (balance : ℕ) (p : Proposal)
    → find voter p.voters ≡ some before
    → before ≢ choice
    → tally before p < balance
    → balance < 2 ^ 64
    → tally before (record_vote voter choice balance p) ≡ tally before p + 2 ^ 64 - balance
unfolding record_vote
record_vote_wraps voter before choice balance p found differs grown small =
    let m = assign voter choice p.voters in
    let u = with_voters m (undo_previous (find voter p.voters) balance p) in
    let all : weight (share before balance) (find voter p.voters) ≡ balance =
      ap (weight (share before balance)) found ∙ share_self before balance in
    let undone =
      tally-undo_previous before (find voter p.voters) balance p (omega (arith, grown, small)) in
    let kept = tally-with_voters before m (undo_previous (find voter p.voters) balance p) in
    let voted = tally-apply_vote before choice balance u (omega (arith, undone, kept)) in
    omega (arith, all, undone, kept, voted, share_other before choice balance differs)
