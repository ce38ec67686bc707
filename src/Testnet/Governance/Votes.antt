-- ===== src/Testnet/Governance/Votes.antt =====
-- What a vote keeps of the proposals.
use npchain.Base.{
  ℕ, suc, ◌+◌, ◌≡◌, inl, inr, refl, ap, sym, ◌∙◌, true, ◌&&◌, ◌||◌, List, [], ◌∷◌, Bytes, bytes_key,
  length, All, ltb, ◌==◌, Bool-cases, Floats, both,
}
use npchain.Testnet.Governance.{
  VoteChoice, Proposal, GovernanceState, is_active, record_vote, vote_on, cast_vote,
}
use npchain.Testnet.Governance.Status.{
  Approved, NumberedFrom, IsSound, record_vote_keeps, active_Approved,
}

-- A list of proposals of which each has its id, and each that is not active stays as it is.
vote_on-IsSound :
    (fl : Floats) (id : ℕ) (voter : Bytes) (choice : VoteChoice) (balance height n : ℕ)
    (ps : List Proposal)
    → NumberedFrom n ps
    → All (λ p. Approved fl p p.status) ps
    → NumberedFrom n (vote_on id voter choice balance height ps).0
      × (length (vote_on id voter choice balance height ps).0 ≡ length ps)
      × All (λ p. Approved fl p p.status) (vote_on id voter choice balance height ps).0
unfolding vote_on
vote_on-IsSound fl id voter choice balance height n [] i a = (tt, refl, tt)
vote_on-IsSound fl id voter choice balance height n (p ∷ ps) (i, is) (a, as_) =
    elim (Bool-cases (p.id == id && is_active p.status)) [
      | inl found ↦ rw found (elim (Bool-cases (ltb p.vote_end_height height || balance == 0)) [
        | inl late ↦ rw late ((i, is), refl, (a, as_))
        | inr open_vote ↦
            let (same_id, same_status) = record_vote_keeps voter choice balance p in
            let still : is_active (record_vote voter choice balance p).status ≡ true =
              ap is_active same_status ∙ (both _ _ found).1 in
            rw open_vote (
              (same_id ∙ i, is),
              refl,
              (
                active_Approved fl p (record_vote voter choice balance p)
                    (record_vote voter choice balance p).status still,
                as_,
              ),
            )
      ])
      | inr other ↦
          let (i', len, a') = vote_on-IsSound fl id voter choice balance height (suc n) ps is as_ in
          rw other ((i, i'), ap suc len, (a, a'))
    ]

-- A vote, refused or not, keeps the invariant: it changes an active proposal at most.
pub cast_vote-IsSound :
    (fl : Floats) (g : GovernanceState) (id : ℕ) (voter : Bytes) (choice : VoteChoice)
    (balance height : ℕ)
    → IsSound fl g
    → IsSound fl (cast_vote g id voter choice balance height).0
unfolding cast_vote
cast_vote-IsSound fl g id voter choice balance height v =
    let (i, len, a) =
      vote_on-IsSound fl id voter choice balance height 1 g.proposals v.numbered v.approved in
    record { numbered = i; next = v.next ∙ ap (λ n. n + 1) (sym len); approved = a }
