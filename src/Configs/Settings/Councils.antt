-- ===== src/Configs/Settings/Councils.antt =====
-- runtime/src/configs/mod.rs: the settings of the collectives, the elections of the council and the membership.
use testchain.Base.{[], ◌∷◌}
use testchain.Pallets.{balances, council, technical_committee}
use testchain.Configs.Terms.{council_motion_duration, technical_motion_duration, term_duration}
use testchain.Configs.Elections.{
  council_max_proposals, technical_max_proposals, desired_runners_up, max_voters,
  max_votes_per_voter, max_candidates,
}
use testchain.Configs.Bounds.{council_max_members, technical_max_members, desired_members}
use testchain.Configs.Bonds.{candidacy_bond, voting_bond_base, voting_bond_factor}
use testchain.Configs.Settings.{Table, pallet, runtime, unit, number, named, ◌$◌}

-- `pallet_collective::Config<CouncilCollective>`
abbrev pub council_settings : Table
council_settings =
    ("RuntimeOrigin", named "RuntimeOrigin")
    ∷ ("Proposal", named "RuntimeCall")
    ∷ ("RuntimeEvent", named "RuntimeEvent")
    ∷ ("MotionDuration", number council_motion_duration)
    ∷ ("MaxProposals", number council_max_proposals)
    ∷ ("MaxMembers", number council_max_members)
    ∷ ("DefaultVote", named "pallet_collective::PrimeDefaultVote")
    ∷ ("WeightInfo", named "pallet_collective::weights::SubstrateWeight" $ runtime)
    ∷ ("SetMembersOrigin", named "EnsureRoot" $ named "Self::AccountId")
    ∷ ("MaxProposalWeight", named "MaxCollectivesProposalWeight")
    ∷ []

-- `pallet_collective::Config<TechnicalCollective>`
abbrev pub technical_committee_settings : Table
technical_committee_settings =
    ("RuntimeOrigin", named "RuntimeOrigin")
    ∷ ("Proposal", named "RuntimeCall")
    ∷ ("RuntimeEvent", named "RuntimeEvent")
    ∷ ("MotionDuration", number technical_motion_duration)
    ∷ ("MaxProposals", number technical_max_proposals)
    ∷ ("MaxMembers", number technical_max_members)
    ∷ ("DefaultVote", named "pallet_collective::PrimeDefaultVote")
    ∷ ("WeightInfo", named "pallet_collective::weights::SubstrateWeight" $ runtime)
    ∷ ("SetMembersOrigin", named "EnsureRoot" $ named "Self::AccountId")
    ∷ ("MaxProposalWeight", named "MaxCollectivesProposalWeight")
    ∷ []

-- `pallet_elections_phragmen::Config`
abbrev pub elections_settings : Table
elections_settings =
    ("RuntimeEvent", named "RuntimeEvent")
    ∷ ("PalletId", named "ElectionsPhragmenPalletId")
    ∷ ("Currency", pallet balances)
    ∷ ("ChangeMembers", pallet council)
    ∷ ("InitializeMembers", pallet council)
    ∷ ("CurrencyToVote", named "sp_staking::currency_to_vote::U128CurrencyToVote")
    ∷ ("CandidacyBond", number candidacy_bond)
    ∷ ("VotingBondBase", number voting_bond_base)
    ∷ ("VotingBondFactor", number voting_bond_factor)
    ∷ ("LoserCandidate", unit)
    ∷ ("KickedMember", unit)
    ∷ ("DesiredMembers", number desired_members)
    ∷ ("DesiredRunnersUp", number desired_runners_up)
    ∷ ("TermDuration", number term_duration)
    ∷ ("MaxVoters", number max_voters)
    ∷ ("MaxVotesPerVoter", number max_votes_per_voter)
    ∷ ("MaxCandidates", number max_candidates)
    ∷ ("WeightInfo", named "pallet_elections_phragmen::weights::SubstrateWeight" $ runtime)
    ∷ []

-- `pallet_membership::Config`
abbrev pub technical_membership_settings : Table
technical_membership_settings =
    ("RuntimeEvent", named "RuntimeEvent")
    ∷ ("AddOrigin", named "EnsureRootOrHalfCouncil")
    ∷ ("RemoveOrigin", named "EnsureRootOrHalfCouncil")
    ∷ ("SwapOrigin", named "EnsureRootOrHalfCouncil")
    ∷ ("ResetOrigin", named "EnsureRootOrHalfCouncil")
    ∷ ("PrimeOrigin", named "EnsureRootOrHalfCouncil")
    ∷ ("MembershipInitialized", pallet technical_committee)
    ∷ ("MembershipChanged", pallet technical_committee)
    ∷ ("MaxMembers", number technical_max_members)
    ∷ ("WeightInfo", named "pallet_membership::weights::SubstrateWeight" $ runtime)
    ∷ []
