-- ===== src/Testnet/Governance/Status.antt =====
-- The life of a proposal: its number, its status, and what a passed proposal has behind it.
use npchain.Base.{
  ℕ, suc, ◌+◌, ◌%◌, ◌^◌, ◌<◌, ◌≡◌, inl, inr, refl, ap, sym, ◌∙◌, Bool, true, false, ◌&&◌, ◌||◌,
  Option, none, some, List, [], ◌∷◌, ◌++◌, map, Bytes, bytes_key, find, assign, length,
  length-append, length-map, All, All-append, ltb, leb, ◌==◌, if◌then◌else◌, arith, Bool-cases,
  Floats, both,
}
use npchain.Testnet.Governance.{
  VoteChoice, Proposal, ProposalStatus, GovernanceState, Submission, is_active, is_passed,
  new_proposal, submit_proposal, undo_previous, apply_vote, record_vote, activate, approval_rate,
  participation_rate, outcome, close, process_height,
}

-- A proposal that has passed, activated or not, keeps the tallies that it passed with: 75% or more
-- of the votes for or against are for it.
abbrev pub Approved : Floats → Proposal → ProposalStatus → Type 0
Approved fl p ProposalStatus.passed = fl.at_most (fl.literal 75 2) (approval_rate fl p) ≡ true
Approved fl p ProposalStatus.activated = fl.at_most (fl.literal 75 2) (approval_rate fl p) ≡ true
Approved fl p _ = Unit {0}

-- The ids are n, n + 1 and so on.
abbrev pub NumberedFrom : ℕ → List Proposal → Type 0
NumberedFrom n [] = Unit {0}
NumberedFrom n (p ∷ ps) = (p.id ≡ n) × NumberedFrom (suc n) ps

pub record IsSound (fl : Floats) (g : GovernanceState) : Type 0 where
  pub numbered : NumberedFrom 1 g.proposals
  pub next : g.next_id ≡ length g.proposals + 1
  pub approved : All (λ p. Approved fl p p.status) g.proposals

NumberedFrom-snoc :
    (n : ℕ) (ps : List Proposal) (p : Proposal)
    → NumberedFrom n ps
    → p.id ≡ length ps + n
    → NumberedFrom n (ps ++ (p ∷ []))
NumberedFrom-snoc n [] p h e = (omega arith, tt)
NumberedFrom-snoc n (q ∷ ps) p (i, h) e = (i, NumberedFrom-snoc (suc n) ps p h (omega arith))

submitted-IsSound :
    (fl : Floats) (g : GovernanceState) (r : Submission) (height : ℕ)
    → length g.proposals + 2 < 2 ^ 32
    → IsSound fl g
    → IsSound fl (record {
      proposals = g.proposals ++ (new_proposal g.next_id r height ∷ []);
      next_id = (g.next_id + 1) % 2 ^ 32;
    })
submitted-IsSound fl g r height few v = record {
  numbered =
      NumberedFrom-snoc 1 g.proposals (new_proposal g.next_id r height) v.numbered
        (omega (arith, v.next));
  next = omega (arith, v.next, length-append g.proposals (new_proposal g.next_id r height ∷ []));
  approved = All-append (λ p. Approved fl p p.status) g.proposals _ v.approved (tt, tt);
}

-- Submitting a proposal, refused or not, keeps the invariant, while ids fit a uint32_t.
pub submit_proposal-IsSound :
    (fl : Floats) (g : GovernanceState) (r : Submission) (height balance : ℕ)
    → length g.proposals + 2 < 2 ^ 32
    → IsSound fl g
    → IsSound fl (submit_proposal g r height balance).0
unfolding submit_proposal
submit_proposal-IsSound fl g r height balance few v =
    let submitted = submitted-IsSound fl g r height few v in
    elim (Bool-cases (ltb balance 47_564_688_000)) [
      | inl e ↦ rw e v
      | inr e1 ↦ rw e1 (elim (Bool-cases (length r.title == 0 || ltb 200 (length r.title))) [
        | inl e ↦ rw e v
        | inr e2 ↦
            rw e2
              (elim (Bool-cases (length r.description == 0 || ltb 5000 (length r.description))) [
                | inl e ↦ rw e v
                | inr e3 ↦ rw e3 submitted
              ])
      ])
    ]

pub active_Approved :
    (fl : Floats) (p q : Proposal) (s : ProposalStatus) → is_active s ≡ true → Approved fl q s
active_Approved fl p q ProposalStatus.active h = tt
active_Approved fl p q ProposalStatus.passed h = absurd (cc)
active_Approved fl p q ProposalStatus.rejected h = absurd (cc)
active_Approved fl p q ProposalStatus.activated h = absurd (cc)
active_Approved fl p q ProposalStatus.expired h = absurd (cc)

abbrev Same : Proposal → Proposal → Type 0
Same p q = (p.id ≡ q.id) × (p.status ≡ q.status)

apply_vote-Same : (choice : VoteChoice) (n : ℕ) (p : Proposal) → Same (apply_vote choice n p) p
unfolding apply_vote
apply_vote-Same VoteChoice.approve n p = (refl, refl)
apply_vote-Same VoteChoice.reject n p = (refl, refl)
apply_vote-Same VoteChoice.abstain n p = (refl, refl)

undo_previous-Same :
    (before : Option VoteChoice) (n : ℕ) (p : Proposal) → Same (undo_previous before n p) p
unfolding undo_previous
undo_previous-Same none n p = (refl, refl)
undo_previous-Same (some VoteChoice.approve) n p = (refl, refl)
undo_previous-Same (some VoteChoice.reject) n p = (refl, refl)
undo_previous-Same (some VoteChoice.abstain) n p = (refl, refl)

pub record_vote_keeps :
    (voter : Bytes) (choice : VoteChoice) (n : ℕ) (p : Proposal)
    → Same (record_vote voter choice n p) p
unfolding record_vote
record_vote_keeps voter choice n p =
    let before = find voter p.voters in
    let u : Proposal = record (undo_previous before n p) {
      voters = assign voter choice p.voters;
    } in
    let (i, s) = apply_vote-Same choice n u in
    let (j, t) = undo_previous-Same before n p in (i ∙ j, s ∙ t)

not_passed :
    (fl : Floats) (q : Proposal) (b : Bool)
    → Approved fl q (if b then ProposalStatus.expired else ProposalStatus.rejected)
not_passed fl q true = tt
not_passed fl q false = tt

outcome-Approved :
    (fl : Floats) (p q : Proposal) (total_supply : ℕ)
    → approval_rate fl q ≡ approval_rate fl p
    → Approved fl q (outcome fl p total_supply)
unfolding outcome
outcome-Approved fl p q total_supply same =
    elim (Bool-cases (fl.at_most (fl.literal 75 2) (approval_rate fl p))) [
      | inl enough ↦
          elim (Bool-cases (fl.at_most (fl.literal 70 2) (participation_rate fl p total_supply))) [
            | inl quorum ↦ rw (enough, quorum) (ap (fl.at_most (fl.literal 75 2)) same ∙ enough)
            | inr few ↦ rw (enough, few) (not_passed fl q _)
          ]
      | inr low ↦ rw low (not_passed fl q _)
    ]

close-Approved :
    (fl : Floats) (height total_supply : ℕ) (p : Proposal)
    → Approved fl p p.status
    → Approved fl (close fl height total_supply p) (close fl height total_supply p).status
unfolding close
close-Approved fl height total_supply p h =
    elim (Bool-cases (is_active p.status && leb p.vote_end_height height)) [
      | inl e ↦ rw e (outcome-Approved fl p _ total_supply (unfold approval_rate in refl))
      | inr e ↦ rw e h
    ]

activate_passed :
    (fl : Floats) (p : Proposal) (s : ProposalStatus)
    → is_passed s ≡ true
    → Approved fl p s
    → fl.at_most (fl.literal 75 2) (approval_rate fl p) ≡ true
activate_passed fl p ProposalStatus.passed e h = h
activate_passed fl p ProposalStatus.active e h = absurd (cc)
activate_passed fl p ProposalStatus.rejected e h = absurd (cc)
activate_passed fl p ProposalStatus.activated e h = absurd (cc)
activate_passed fl p ProposalStatus.expired e h = absurd (cc)

activate-Approved :
    (fl : Floats) (height : ℕ) (p : Proposal)
    → Approved fl p p.status
    → Approved fl (activate height p) (activate height p).status
unfolding activate
activate-Approved fl height p h =
    elim (Bool-cases (is_passed p.status && leb p.activation_height height)) [
      | inl e ↦ rw e (unfold approval_rate in activate_passed fl p p.status (both _ _ e).0 h)
      | inr e ↦ rw e h
    ]

-- Both loops of `process_height` for one proposal.
abbrev stepped : Floats → ℕ → ℕ → Proposal → Proposal
stepped fl height total_supply p = activate height (close fl height total_supply p)

close_id :
    (fl : Floats) (height total_supply : ℕ) (p : Proposal)
    → (close fl height total_supply p).id ≡ p.id
unfolding close
close_id fl height total_supply p =
    elim (Bool-cases (is_active p.status && leb p.vote_end_height height)) [
      | inl e ↦ rw e
      | inr e ↦ rw e
    ]

activate_id : (height : ℕ) (p : Proposal) → (activate height p).id ≡ p.id
unfolding activate
activate_id height p = elim (Bool-cases (is_passed p.status && leb p.activation_height height)) [
  | inl e ↦ rw e
  | inr e ↦ rw e
]

map-NumberedFrom :
    (f : Proposal → Proposal) (n : ℕ) (ps : List Proposal)
    → ((p : Proposal) → (f p).id ≡ p.id)
    → NumberedFrom n ps
    → NumberedFrom n (map f ps)
map-NumberedFrom f n [] same h = tt
map-NumberedFrom f n (p ∷ ps) same (i, h) = (same p ∙ i, map-NumberedFrom f (suc n) ps same h)

map-Approved :
    (fl : Floats) (f : Proposal → Proposal) (ps : List Proposal)
    → ((p : Proposal) → Approved fl p p.status → Approved fl (f p) (f p).status)
    → All (λ p. Approved fl p p.status) ps
    → All (λ p. Approved fl p p.status) (map f ps)
map-Approved fl f [] keep h = tt
map-Approved fl f (p ∷ ps) keep (a, h) = (keep p a, map-Approved fl f ps keep h)

-- Processing a height keeps the invariant: ids stay, and no proposal passes or is activated
-- without 75% of the votes for or against.
pub process_height-IsSound :
    (fl : Floats) (g : GovernanceState) (height total_supply : ℕ)
    → IsSound fl g
    → IsSound fl (process_height fl g height total_supply)
unfolding process_height
process_height-IsSound fl g height total_supply v =
    let closed = map (close fl height total_supply) g.proposals in
    record {
      numbered = map-NumberedFrom (activate height) 1 closed (activate_id height) (
          map-NumberedFrom (close fl height total_supply) 1 g.proposals
            (close_id fl height total_supply) v.numbered);
      next =
          v.next
          ∙ ap (λ n. n + 1)
              (sym (
                length-map (activate height) closed
                ∙ length-map (close fl height total_supply) g.proposals));
      approved = map-Approved fl (activate height) closed (activate-Approved fl height) (
          map-Approved fl (close fl height total_supply) g.proposals
            (close-Approved fl height total_supply) v.approved);
    }
