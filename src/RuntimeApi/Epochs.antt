-- ===== src/RuntimeApi/Epochs.antt =====
-- What clients of the BABE API (runtime/src/apis.rs) are told of slots and epochs on a chain that a
-- specification of node/src/chain_spec.rs starts.
use testchain.Base.{ℕ, ◌*◌, ◌≡◌, refl, ap, ◌∙◌, none, some, List, ◌⊎◌, inl, inr}
use testchain.Constants.{millisecs_per_block}
use testchain.Genesis.Keys.{Crypto, Authority}
use testchain.Genesis.Stakers.{Rng}
use testchain.Genesis.State.{
  primary_and_secondary_plain_slots, babe_genesis_epoch_config, GenesisState, testnet_genesis,
}
use testchain.Genesis.Accounts.{genesis_parts}
use testchain.RuntimeApi.Babe.{BabeConfiguration, BabePallet, configuration}

module _ (B : BabePallet) where
  open B use {AuthorityId, Randomness, State}

  -- The documented behaviour of the pallet: a slot lasts twice the minimum period.
  pub record IsBabe : Type 0 where
    pub slot_duration_lem : (period : ℕ) → B.slot_duration period ≡ 2 * period

  -- What a client is to be told while the epoch's configuration is that of the genesis.
  abbrev pub genesis_configuration : State → BabeConfiguration AuthorityId Randomness
  genesis_configuration s = record {
    slot_duration = millisecs_per_block;
    epoch_length = 100;
    c = (1, 4);
    authorities = B.authorities s;
    randomness = B.randomness s;
    allowed_slots = primary_and_secondary_plain_slots;
  }

  configuration-of :
      IsBabe
      → (s : State)
      → (B.epoch_config s ≡ none) ⊎ (B.epoch_config s ≡ some babe_genesis_epoch_config)
      → configuration B s ≡ genesis_configuration s
  unfolding configuration
  configuration-of I s (inl e) = rw (configuration, e, I.slot_duration_lem 3000) refl
  configuration-of I s (inr e) = rw (configuration, e, I.slot_duration_lem 3000) refl

module _ (B : BabePallet) (C : Crypto) (R : Rng (Authority C)) (sudo_key : C.AccountId)
    (accounts : List C.AccountId) (authorities : List (Authority C)) (nominators : List C.AccountId)
    (chain_id : ℕ) (rng rng' : R.State) (g : GenesisState C)
    (built : testnet_genesis C R sudo_key accounts authorities nominators chain_id rng
      ≡ some (g, rng')) where
  -- On a chain whose genesis `testnet_genesis` built, and as long as BABE's epoch configuration is
  -- absent or still the one of that genesis, clients are told slots as long as a block, epochs of a
  -- hundred slots, a chance of one in four for a primary slot, plain secondary slots, and the
  -- authorities and the randomness of the state.
  pub configuration-testnet_genesis :
      IsBabe B
      → (s : B.State) → (B.epoch_config s ≡ none) ⊎ (B.epoch_config s ≡ g.epoch_config)
      → configuration B s ≡ genesis_configuration B s
  configuration-testnet_genesis I s (inl e) = configuration-of B I s (inl e)
  configuration-testnet_genesis I s (inr e) =
      let (ss, _, parts) =
        genesis_parts C R sudo_key accounts authorities nominators chain_id rng rng' g built in
      configuration-of B I s (inr (e ∙ ap (λ (x : GenesisState C). x.epoch_config) parts))
