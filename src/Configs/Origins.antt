-- ===== src/Configs/Origins.antt =====
-- The origins that runtime/src/configs/mod.rs lets govern its pallets. `EnsureRoot` and what
-- `pallet_collective` ensures are parameters, as is the origin of a call.
use testchain.Base.{ℕ, ◌*◌, ◌≤◌, ◌<◌, ◌≡◌, Bool, false, ◌||◌, Option, none, some, leb, ltb}

-- `CouncilCollective`, `TechnicalCollective`
pub data Collective : Type 0 where
  council technical : Collective

pub record Ensure : Type 1 where
  pub Origin : Type 0
  -- `EnsureRoot`
  pub root : Origin → Bool
  -- `EnsureProportionAtLeast<_, C, N, D>`
  pub at_least : Collective → ℕ → ℕ → Origin → Bool
  -- `EnsureProportionMoreThan<_, C, N, D>`
  pub more_than : Collective → ℕ → ℕ → Origin → Bool

module _ (S : Ensure) where
  -- `EnsureRootOrHalfCouncil`
  unfoldable pub root_or_half_council : S.Origin → Bool
  root_or_half_council o = S.root o || S.more_than council 1 2 o

  -- `RejectOrigin` of the treasury.
  unfoldable pub treasury_reject : S.Origin → Bool
  treasury_reject o = S.root o || S.more_than council 1 2 o

  -- `AdminOrigin` of staking.
  unfoldable pub staking_admin : S.Origin → Bool
  staking_admin o = S.root o || S.at_least council 3 4 o

  -- `AdminOrigin` of the nomination pools.
  unfoldable pub pools_admin : S.Origin → Bool
  pools_admin o = S.root o || S.at_least council 3 4 o

  -- `ControlOrigin` of fast unstake.
  unfoldable pub fast_unstake_control : S.Origin → Bool
  fast_unstake_control o = S.root o || S.at_least technical 1 1 o

  -- `ExternalOrigin` of democracy.
  unfoldable pub external : S.Origin → Bool
  external o = S.at_least council 1 2 o

  -- `ExternalMajorityOrigin`
  unfoldable pub external_majority : S.Origin → Bool
  external_majority o = S.at_least council 3 4 o

  -- `ExternalDefaultOrigin`
  unfoldable pub external_default : S.Origin → Bool
  external_default o = S.at_least council 1 1 o

  -- `FastTrackOrigin`
  unfoldable pub fast_track : S.Origin → Bool
  fast_track o = S.at_least technical 2 3 o

  -- `InstantOrigin`
  unfoldable pub instant : S.Origin → Bool
  instant o = S.at_least technical 1 1 o

  -- `CancellationOrigin`
  unfoldable pub cancellation : S.Origin → Bool
  cancellation o = S.at_least council 2 3 o

  -- `CancelProposalOrigin`
  unfoldable pub cancel_proposal : S.Origin → Bool
  cancel_proposal o = S.root o || S.at_least technical 1 1 o

-- The proportions of `Members(ayes, seats)`.
abbrev pub reaches : ℕ → ℕ → Option (ℕ × ℕ) → Bool
reaches n d none = false
reaches n d (some (ayes, seats)) = leb (n * seats) (ayes * d)

abbrev pub exceeds : ℕ → ℕ → Option (ℕ × ℕ) → Bool
exceeds n d none = false
exceeds n d (some (ayes, seats)) = ltb (n * seats) (ayes * d)

-- The documented behaviour of `pallet_collective`: an origin `Members(ayes, seats)`, with seats and
-- no more ayes than seats, passes as its proportion says, and no other origin does.
pub record IsCollective (S : Ensure) : Type 0 where
  pub members : Collective → S.Origin → Option (ℕ × ℕ)
  pub at_least_lem :
      (c : Collective) (n d : ℕ) (o : S.Origin) → S.at_least c n d o ≡ reaches n d (members c o)
  pub more_than_lem :
      (c : Collective) (n d : ℕ) (o : S.Origin) → S.more_than c n d o ≡ exceeds n d (members c o)
  pub seats_lem :
      (c : Collective) (o : S.Origin) (ayes seats : ℕ)
      → members c o ≡ some (ayes, seats)
      → (0 < seats) × (ayes ≤ seats)
