-- ===== src/RuntimeApi/Babe.antt =====
-- runtime/src/apis.rs, lines 277 to 299: the BABE API, with the part of the configuration in
-- runtime/src/configs/mod.rs that it reads.
use testchain.Base.{ℕ, ◌/◌, Option, List, unwrap_or}
use testchain.Constants.{slot_duration, epoch_duration_in_slots}
use testchain.Genesis.State.{AllowedSlots, BabeEpochConfiguration, babe_genesis_epoch_config}

-- `MinimumPeriod` of the timestamp pallet.
abbrev pub minimum_period : ℕ
minimum_period = slot_duration / 2

-- `EpochDuration`
abbrev pub epoch_duration : ℕ
epoch_duration = epoch_duration_in_slots

-- `BabeConfiguration`
pub record BabeConfiguration (AuthorityId Randomness : Type 0) : Type 0 where
  pub slot_duration : ℕ
  pub epoch_length : ℕ
  pub c : ℕ × ℕ
  pub authorities : List (AuthorityId × ℕ)
  pub randomness : Randomness
  pub allowed_slots : AllowedSlots

-- The pallet `pallet_babe`. Its slots last as the minimum period of the timestamps says.
pub record BabePallet : Type 1 where
  pub AuthorityId : Type 0
  pub Randomness : Type 0
  pub Epoch : Type 0
  pub State : Type 0
  pub slot_duration : ℕ → ℕ
  pub epoch_config : State → Option BabeEpochConfiguration
  pub authorities : State → List (AuthorityId × ℕ)
  pub randomness : State → Randomness
  pub current_epoch_start : State → ℕ
  pub current_epoch : State → Epoch
  pub next_epoch : State → Epoch

module _ (B : BabePallet) where
  open B use {AuthorityId, Randomness, Epoch, State}

  -- `configuration`
  unfoldable pub configuration : State → BabeConfiguration AuthorityId Randomness
  configuration s =
      let epoch_config = unwrap_or (B.epoch_config s) babe_genesis_epoch_config in
      record {
        slot_duration = B.slot_duration minimum_period;
        epoch_length = epoch_duration;
        c = epoch_config.c;
        authorities = B.authorities s;
        randomness = B.randomness s;
        allowed_slots = epoch_config.allowed_slots;
      }

  -- `current_epoch_start`
  unfoldable pub api_current_epoch_start : State → ℕ
  api_current_epoch_start s = B.current_epoch_start s

  -- `current_epoch`
  unfoldable pub api_current_epoch : State → Epoch
  api_current_epoch s = B.current_epoch s

  -- `next_epoch`
  unfoldable pub api_next_epoch : State → Epoch
  api_next_epoch s = B.next_epoch s
