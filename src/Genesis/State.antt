-- ===== src/Genesis/State.antt =====
-- `testnet_genesis` of node/src/chain_spec.rs: the genesis state of the pallets, as a record of the
-- fields of the JSON value that the source builds.
use testchain.Base.{ℕ, ◌+◌, ◌*◌, ◌/◌, ◌%◌, ◌^◌, Option, some, List, ◌++◌, map, length, take}
use testchain.Base.OptionMonad.{◌>>=◌}
use testchain.Constants.{dollars, primary_probability}
use testchain.Genesis.Keys.{Crypto, Authority, SessionKeys, session_keys}
use testchain.Genesis.Endow.{endow}
use testchain.Genesis.Stakers.{Rng, Staker, stakers, stashes, endowment, stash_balance}
use testchain.Genesis.Evm.{GenesisAccount, evm_accounts}

-- `AllowedSlots` of the crate `sp_consensus_babe`
pub data AllowedSlots : Type 0 where
  primary_slots primary_and_secondary_plain_slots primary_and_secondary_vrf_slots : AllowedSlots

-- `BabeEpochConfiguration`
pub record BabeEpochConfiguration : Type 0 where
  pub c : ℕ × ℕ
  pub allowed_slots : AllowedSlots

-- `BABE_GENESIS_EPOCH_CONFIG` of runtime/src/apis.rs
abbrev pub babe_genesis_epoch_config : BabeEpochConfiguration
babe_genesis_epoch_config = record {
  c = primary_probability;
  allowed_slots = primary_and_secondary_plain_slots;
}

module _ (C : Crypto) where
  open C use {AccountId}

  -- The part `"staking"`. The fraction is in percent.
  pub record StakingGenesis : Type 0 where
    pub validator_count : ℕ
    pub minimum_validator_count : ℕ
    pub invulnerables : List AccountId
    pub slash_reward_fraction : ℕ
    pub stakers : List (Staker C)
    pub min_validator_bond : ℕ
    pub min_nominator_bond : ℕ

  -- The JSON value.
  pub record GenesisState : Type 0 where
    pub sudo_key : Option AccountId
    pub balances : List (AccountId × ℕ)
    pub epoch_config : Option BabeEpochConfiguration
    pub session_keys : List (AccountId × AccountId × SessionKeys C)
    pub staking : StakingGenesis
    pub elections_members : List (AccountId × ℕ)
    pub technical_committee_members : List AccountId
    pub evm_chain_id : ℕ
    pub evm_accounts : List (ℕ × GenesisAccount)
    pub min_create_bond : ℕ
    pub min_join_bond : ℕ

module _ (C : Crypto) (R : Rng (Authority C)) where
  open C use {AccountId, eq}
  open R use {State}

  -- `endowed_accounts` after the loop.
  abbrev pub endowed : List AccountId → List (Authority C) → List AccountId → List AccountId
  endowed endowed_accounts initial_authorities initial_nominators =
      endow eq endowed_accounts (stashes C R initial_authorities ++ initial_nominators)

  -- The first half of the accounts, rounded up.
  abbrev pub members : List AccountId → List AccountId
  members accounts = take ((length accounts + 1) / 2) accounts

  abbrev pub key_entry : Authority C → AccountId × AccountId × SessionKeys C
  key_entry x = (x.controller, x.stash, session_keys C x.babe x.grandpa x.im_online)

  abbrev pub staking_genesis : List (Authority C) → List (Staker C) → StakingGenesis C
  staking_genesis initial_authorities all_stakers = record {
    validator_count = length initial_authorities % 2 ^ 32;
    minimum_validator_count = length initial_authorities % 2 ^ 32;
    invulnerables = stashes C R initial_authorities;
    slash_reward_fraction = 10;
    stakers = all_stakers;
    min_validator_bond = 75_000 * dollars;
    min_nominator_bond = 10 * dollars;
  }

  abbrev pub state_of :
      AccountId → List AccountId → List (Authority C) → List (Staker C) → ℕ → GenesisState C
  state_of sudo_key accounts initial_authorities all_stakers chain_id = record {
    sudo_key = some sudo_key;
    balances = map (λ k. (k, endowment)) accounts;
    epoch_config = some babe_genesis_epoch_config;
    session_keys = map key_entry initial_authorities;
    staking = staking_genesis initial_authorities all_stakers;
    elections_members = map (λ member. (member, stash_balance)) (members accounts);
    technical_committee_members = members accounts;
    evm_chain_id = chain_id;
    evm_accounts = evm_accounts;
    min_create_bond = 10 * dollars;
    min_join_bond = dollars;
  }

  -- `testnet_genesis`; `none` is a panic.
  unfoldable pub testnet_genesis :
      AccountId
      → List AccountId
      → List (Authority C)
      → List AccountId
      → ℕ
      → State
      → Option (GenesisState C × State)
  testnet_genesis sudo_key endowed_accounts initial_authorities initial_nominators chain_id rng = do
    (all_stakers, rng') ← stakers C R initial_authorities initial_nominators rng
    let accounts = endowed endowed_accounts initial_authorities initial_nominators
    some (state_of sudo_key accounts initial_authorities all_stakers chain_id, rng')
