-- ===== src/Configs/Parts.antt =====
-- Shares, identifiers and bounds of runtime/src/configs/mod.rs that are no plain numbers: what is a part
-- of a whole, the eight bytes that name a pallet, the inputs of the reward curve, and the bounds of
-- elections.
use testchain.Base.{
  ℕ, ◌-◌, ◌≤◌, ◌≡◌, ◌≢◌, ap, sym, ◌∙◌, Option, none, some, List, [], ◌∷◌, ◌++◌, length, get_elem?,
  replicate, arith,
}
use mathlib.Core.Option.{some-injective}
use testchain.Base.Words.{u128_max}
use testchain.Configs.Elections.{max_electing_voters}

-- `Burn`, in a million; `TipFindersFee` and `SignedDepositIncreaseFactor`, in a hundred;
-- `BetterUnsignedThreshold` and `CodeHashLockupDepositPercent`, in a billion
abbrev pub burn : ℕ
burn = 500_000

abbrev pub tip_finders_fee : ℕ
tip_finders_fee = 20

abbrev pub signed_deposit_increase_factor : ℕ
signed_deposit_increase_factor = 10

abbrev pub better_unsigned_threshold : ℕ
better_unsigned_threshold = 100_000

abbrev pub code_hash_lockup_deposit_percent : ℕ
code_hash_lockup_deposit_percent = 300_000_000

-- `MaxBalance`
abbrev pub max_balance : ℕ
max_balance = u128_max

-- `TreasuryPalletId`, `NominationPoolsPalletId` and `ElectionsPhragmenPalletId`, as bytes
abbrev pub treasury_pallet_id : List ℕ
treasury_pallet_id = b'p' ∷ b'y' ∷ b'/' ∷ b't' ∷ b'r' ∷ b's' ∷ b'r' ∷ b'y' ∷ []

abbrev pub nomination_pools_pallet_id : List ℕ
nomination_pools_pallet_id = b'p' ∷ b'y' ∷ b'/' ∷ b'n' ∷ b'o' ∷ b'p' ∷ b'l' ∷ b's' ∷ []

abbrev pub elections_phragmen_pallet_id : List ℕ
elections_phragmen_pallet_id = b'p' ∷ b'h' ∷ b'r' ∷ b'e' ∷ b'l' ∷ b'e' ∷ b'c' ∷ b't' ∷ []

-- `AccountIdConversion::try_into_account`
pub record Conversion : Type 1 where
  pub AccountId : Type 0
  pub try_into_account : List ℕ → Option AccountId

module _ (K : Conversion) where
  -- `TreasuryAccount`, whose panic is `none`.
  unfoldable pub treasury_account : Option K.AccountId
  treasury_account = K.try_into_account treasury_pallet_id

-- `ElectionBounds`: how many voters and targets there may be, without a bound where there is none.
pub record ElectionBounds : Type 0 where
  pub voters_count : Option ℕ
  pub targets_count : Option ℕ

abbrev pub election_bounds : ElectionBounds
election_bounds = record { voters_count = some max_electing_voters; targets_count = none }

-- The inputs of the reward curve, in a million, and its number of pieces.
pub record Curve : Type 0 where
  pub min_inflation : ℕ
  pub max_inflation : ℕ
  pub ideal_stake : ℕ
  pub falloff : ℕ
  pub max_piece_count : ℕ
  pub test_precision : ℕ

-- `REWARD_CURVE`
abbrev pub reward_curve : Curve
reward_curve = record {
  min_inflation = 25_000;
  max_inflation = 100_000;
  ideal_stake = 500_000;
  falloff = 50_000;
  max_piece_count = 40;
  test_precision = 5_000;
}

-- `ElectionProviderBenchmarkConfig`
pub record ElectionBenchmarks : Type 0 where
  pub voters : ℕ × ℕ
  pub targets : ℕ × ℕ
  pub active_voters : ℕ × ℕ
  pub desired_targets : ℕ × ℕ
  pub snapshot_maximum_voters : ℕ
  pub miner_maximum_voters : ℕ
  pub maximum_targets : ℕ

abbrev pub election_benchmarks : ElectionBenchmarks
election_benchmarks = record {
  voters = (1000, 2000);
  targets = (500, 1000);
  active_voters = (500, 800);
  desired_targets = (200, 400);
  snapshot_maximum_voters = 1000;
  miner_maximum_voters = 1000;
  maximum_targets = 300;
}

-- The documented behaviour of the conversion: the account of a pallet is the bytes `modl`, the
-- identifier, and zeros, where 32 bytes have room for them.
pub record IsConversion (K : Conversion) : Type 0 where
  pub bytes : K.AccountId → List ℕ
  pub converts :
      (id : List ℕ)
      → length id ≤ 28
      → (a : K.AccountId) × (K.try_into_account id ≡ some a)
        × (bytes a ≡ (b'm' ∷ b'o' ∷ b'd' ∷ b'l' ∷ []) ++ (id ++ replicate (28 - length id) 0))

-- The account of the treasury is there, so that `expect` does not panic, and it is not that of the
-- nomination pools.
pub treasury_account_lem :
    (K : Conversion) (I : IsConversion K)
    → (a : K.AccountId) × (treasury_account K ≡ some a)
      × ((b : K.AccountId) → K.try_into_account nomination_pools_pallet_id ≡ some b → a ≢ b)
unfolding treasury_account
treasury_account_lem K I =
    let (a, given, shape) = I.converts treasury_pallet_id (omega arith) in
    let (b', given', shape') = I.converts nomination_pools_pallet_id (omega arith) in
    (
      a,
      given,
      λ b h e.
          let same = e ∙ some-injective b b' (sym h ∙ given') in
          let at : some 116 ≡ some 110 =
            ap (λ l. get_elem? l 7) (sym shape ∙ ap I.bytes same ∙ shape') in
          absurd (omega (arith, some-injective 116 110 at)),
    )
