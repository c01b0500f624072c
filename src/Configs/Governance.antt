-- ===== src/Configs/Governance.antt =====
-- Every origin check that runtime/src/configs/mod.rs configures, as one table: what is governed, and
-- by whom. `EnsureSigned` and `EnsureMember` are parameters, beside those of `Ensure`.
use testchain.Base.{ℕ, Bool, Option, none, some, is_some, if◌then◌else◌}
use testchain.Base.Words.{u128_max}
use testchain.Configs.Origins.{
  Collective, technical, Ensure, root_or_half_council, treasury_reject, staking_admin, pools_admin,
  fast_unstake_control, external, external_majority, external_default, fast_track, instant,
  cancellation, cancel_proposal,
}

-- The associated types of the pallets' `Config` that check an origin.
pub data Privilege : Type 0 where
  reject_treasury spend_treasury force_election administer_staking control_fast_unstake : Privilege
  propose_external propose_majority propose_default submit fast_track_vote vote_instantly :
      Privilege
  cancel_referendum cancel_proposed blacklist veto : Privilege
  set_members : Collective → Privilege
  change_membership schedule manage_preimages administer_pools : Privilege
  upload_contract instantiate_contract : Privilege

pub record EnsureOne (S : Ensure) : Type 0 where
  -- `EnsureSigned`
  pub signed : S.Origin → Bool
  -- `EnsureMember<_, C>`
  pub member : Collective → S.Origin → Bool

module _ (S : Ensure) (E : EnsureOne S) where
  -- `SpendOrigin`: `EnsureWithSuccess<EnsureRoot, _, MaxBalance>`, with the largest amount.
  unfoldable pub spend_limit : S.Origin → Option ℕ
  spend_limit o = if S.root o then some u128_max else none

  -- `ForceOrigin` of the elections of validators.
  unfoldable pub election_force : S.Origin → Bool
  election_force o = root_or_half_council S o

  -- `SubmitOrigin`, `BlacklistOrigin` and `VetoOrigin` of democracy.
  unfoldable pub submit_origin : S.Origin → Bool
  submit_origin o = E.signed o

  unfoldable pub blacklist_origin : S.Origin → Bool
  blacklist_origin o = S.root o

  unfoldable pub veto_origin : S.Origin → Bool
  veto_origin o = E.member technical o

  -- `SetMembersOrigin` of the council and of the technical committee.
  unfoldable pub set_members_origin : Collective → S.Origin → Bool
  set_members_origin c o = S.root o

  -- `AddOrigin`, `RemoveOrigin`, `SwapOrigin`, `ResetOrigin` and `PrimeOrigin` of the membership.
  unfoldable pub membership_origin : S.Origin → Bool
  membership_origin o = root_or_half_council S o

  -- `ScheduleOrigin`
  unfoldable pub schedule_origin : S.Origin → Bool
  schedule_origin o = S.root o

  -- `ManagerOrigin` of the preimages.
  unfoldable pub preimage_manager : S.Origin → Bool
  preimage_manager o = S.root o

  -- `UploadOrigin` and `InstantiateOrigin` of the contracts.
  unfoldable pub upload_origin : S.Origin → Bool
  upload_origin o = E.signed o

  unfoldable pub instantiate_origin : S.Origin → Bool
  instantiate_origin o = E.signed o

  -- Whether the check of the privilege lets an origin pass.
  unfoldable pub ensure : Privilege → S.Origin → Bool
  ensure reject_treasury o = treasury_reject S o
  ensure spend_treasury o = is_some (spend_limit o)
  ensure force_election o = election_force o
  ensure administer_staking o = staking_admin S o
  ensure control_fast_unstake o = fast_unstake_control S o
  ensure propose_external o = external S o
  ensure propose_majority o = external_majority S o
  ensure propose_default o = external_default S o
  ensure submit o = submit_origin o
  ensure fast_track_vote o = fast_track S o
  ensure vote_instantly o = instant S o
  ensure cancel_referendum o = cancellation S o
  ensure cancel_proposed o = cancel_proposal S o
  ensure blacklist o = blacklist_origin o
  ensure veto o = veto_origin o
  ensure (set_members c) o = set_members_origin c o
  ensure change_membership o = membership_origin o
  ensure schedule o = schedule_origin o
  ensure manage_preimages o = preimage_manager o
  ensure administer_pools o = pools_admin S o
  ensure upload_contract o = upload_origin o
  ensure instantiate_contract o = instantiate_origin o
