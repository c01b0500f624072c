-- ===== src/Configs/Minorities.antt =====
-- Who cannot govern the runtime of runtime/src/configs/mod.rs.
use testchain.Base.{ℕ, ◌*◌, ◌≡◌, refl, ◌∙◌, Bool, true, false, Option, none, some, ltb, arith}
use testchain.Configs.Origins.{
  Collective, council, technical, Ensure, IsCollective, reaches, exceeds, root_or_half_council,
  treasury_reject, staking_admin, pools_admin, fast_unstake_control, external, external_majority,
  external_default, fast_track, instant, cancellation, cancel_proposal,
}
use testchain.Configs.Governance.{
  Privilege, submit, veto, upload_contract, instantiate_contract, EnsureOne, spend_limit,
  election_force, submit_origin, blacklist_origin, veto_origin, set_members_origin,
  membership_origin, schedule_origin, preimage_manager, upload_origin, instantiate_origin, ensure,
}

-- The kinds of origin: root, an account, one member of a collective, `ayes` of the `seats` of a
-- collective, and the others.
pub data Kind : Type 0 where
  root_kind signed_kind other_kind : Kind
  member_kind : Collective → Kind
  members_kind : Collective → ℕ → ℕ → Kind

abbrev pub is_root : Kind → Bool
is_root root_kind = true
is_root k = false

abbrev pub is_signed : Kind → Bool
is_signed signed_kind = true
is_signed k = false

abbrev pub is_member : Collective → Kind → Bool
is_member council (member_kind council) = true
is_member technical (member_kind technical) = true
is_member c k = false

abbrev pub votes : Collective → Kind → Option (ℕ × ℕ)
votes council (members_kind council ayes seats) = some (ayes, seats)
votes technical (members_kind technical ayes seats) = some (ayes, seats)
votes c k = none

-- The documented behaviour of `RawOrigin`, of the system and of the collectives: an origin is of one
-- kind, which the checks tell apart.
pub record IsRawOrigin (S : Ensure) (C : IsCollective S) (E : EnsureOne S) : Type 0 where
  pub kind : S.Origin → Kind
  pub root_lem : (o : S.Origin) → S.root o ≡ is_root (kind o)
  pub signed_lem : (o : S.Origin) → E.signed o ≡ is_signed (kind o)
  pub member_lem : (c : Collective) (o : S.Origin) → E.member c o ≡ is_member c (kind o)
  pub members_lem : (c : Collective) (o : S.Origin) → C.members c o ≡ votes c (kind o)

-- An account by itself, one member of a collective, and less than half of one.
abbrev pub is_minority : Kind → Bool
is_minority root_kind = false
is_minority signed_kind = true
is_minority other_kind = false
is_minority (member_kind c) = true
is_minority (members_kind c ayes seats) = ltb (2 * ayes) seats

-- What is left to a single account or member.
abbrev pub is_open : Privilege → Bool
is_open submit = true
is_open veto = true
is_open upload_contract = true
is_open instantiate_contract = true
is_open p = false

-- No proportion that the runtime asks for is reached by a minority.
abbrev IsRefused : Option (ℕ × ℕ) → Type 0
IsRefused v =
    (reaches 1 2 v ≡ false)
    × (reaches 2 3 v ≡ false)
    × (reaches 3 4 v ≡ false)
    × (reaches 1 1 v ≡ false)
    × (exceeds 1 2 v ≡ false)

few-IsRefused : (ayes seats : ℕ) → ltb (2 * ayes) seats ≡ true → IsRefused (some (ayes, seats))
few-IsRefused ayes seats h = (ground arith, ground arith, ground arith, ground arith, ground arith)

none-IsRefused : IsRefused none
none-IsRefused = (refl, refl, refl, refl, refl)

votes-IsRefused : (c : Collective) (k : Kind) → is_minority k ≡ true → IsRefused (votes c k)
votes-IsRefused council (members_kind council ayes seats) h = few-IsRefused ayes seats h
votes-IsRefused technical (members_kind technical ayes seats) h = few-IsRefused ayes seats h
votes-IsRefused council (members_kind technical ayes seats) h = none-IsRefused
votes-IsRefused technical (members_kind council ayes seats) h = none-IsRefused
votes-IsRefused council root_kind h = none-IsRefused
votes-IsRefused council signed_kind h = none-IsRefused
votes-IsRefused council other_kind h = none-IsRefused
votes-IsRefused council (member_kind c) h = none-IsRefused
votes-IsRefused technical root_kind h = none-IsRefused
votes-IsRefused technical signed_kind h = none-IsRefused
votes-IsRefused technical other_kind h = none-IsRefused
votes-IsRefused technical (member_kind c) h = none-IsRefused

pub is_root-is_minority : (k : Kind) → is_minority k ≡ true → is_root k ≡ false
is_root-is_minority root_kind h = cc
is_root-is_minority signed_kind h = refl
is_root-is_minority other_kind h = refl
is_root-is_minority (member_kind c) h = refl
is_root-is_minority (members_kind c ayes seats) h = refl

module _ (S : Ensure) (C : IsCollective S) (E : EnsureOne S) (I : IsRawOrigin S C E) where
  at_least-is_minority :
      (c : Collective) (o : S.Origin)
      → is_minority (I.kind o) ≡ true
      → (S.at_least c 1 2 o ≡ false)
        × (S.at_least c 2 3 o ≡ false)
        × (S.at_least c 3 4 o ≡ false)
        × (S.at_least c 1 1 o ≡ false)
        × (S.more_than c 1 2 o ≡ false)
  at_least-is_minority c o h =
      rw
        (
          C.at_least_lem c 1 2 o,
          C.at_least_lem c 2 3 o,
          C.at_least_lem c 3 4 o,
          C.at_least_lem c 1 1 o,
          C.more_than_lem c 1 2 o,
        )
        (rw (I.members_lem c o) (votes-IsRefused c (I.kind o) h))

  -- No minority governs. An account by itself, one member of a collective, and less than half of a
  -- collective pass none of the checks that the runtime configures, but for those that are open to
  -- single accounts: submitting a proposal, the veto of a technical member, and contracts.
  ensure-is_minority :
      (p : Privilege) (o : S.Origin)
      → is_minority (I.kind o) ≡ true
      → is_open p ≡ false
      → ensure S E p o ≡ false
  unfolding ensure spend_limit election_force submit_origin blacklist_origin veto_origin
      set_members_origin membership_origin schedule_origin preimage_manager upload_origin
      instantiate_origin root_or_half_council treasury_reject staking_admin pools_admin
      fast_unstake_control external external_majority external_default fast_track instant
      cancellation cancel_proposal
  ensure-is_minority p o h g =
      let root : S.root o ≡ false = I.root_lem o ∙ is_root-is_minority (I.kind o) h in
      let (half, two_thirds, three_quarters, all, most) = at_least-is_minority council o h in
      let (_, t_two_thirds, _, t_all, _) = at_least-is_minority technical o h in
      ground (arith, root, half, two_thirds, three_quarters, all, most, t_two_thirds, t_all, g)
