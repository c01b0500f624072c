-- ===== src/Configs/Wiring.antt =====
-- The settings of all pallets of the runtime, by pallet: runtime/src/configs/mod.rs, for the pallets of
-- runtime/src/lib.rs. The settings of the system are those that the source writes; `derive_impl` adds
-- the defaults of its crate to them.
use text.Mathlib.TextEquality.{eq_iff}
use testchain.Base.{arith, Bool, true, ◌&&◌, some, List, [], ◌∷◌, ◌≡◌, String, All}
use mathlib.Core.Option.{some-injective}
use testchain.Pallets.{
  Pallet, all_pallets, system, timestamp, grandpa, balances, transaction_payment, sudo,
  template_module, evm, evm_chain_id, ethereum, dynamic_fee, base_fee, babe, treasury, authorship,
  utility, offences, im_online, election_provider_multi_phase, staking, fast_unstake, session,
  democracy, council, technical_committee, elections, technical_membership, voter_list, historical,
  scheduler, preimage, nomination_pools, randomness_collective_flip, contracts,
}
use testchain.Configs.Settings.Chain.{
  system_settings, timestamp_settings, balances_settings, transaction_payment_settings,
  sudo_settings, template_module_settings, utility_settings,
}
use testchain.Configs.Settings.Virtual.{
  evm_chain_id_settings, evm_settings, ethereum_settings, dynamic_fee_settings, base_fee_settings,
  randomness_collective_flip_settings, contracts_settings,
}
use testchain.Configs.Settings.Consensus.{
  grandpa_settings, babe_settings, authorship_settings, offences_settings, im_online_settings,
  session_settings, historical_settings,
}
use testchain.Configs.Settings.Validators.{
  election_provider_multi_phase_settings, staking_settings, fast_unstake_settings,
  voter_list_settings, nomination_pools_settings,
}
use testchain.Configs.Settings.Councils.{
  council_settings, technical_committee_settings, elections_settings, technical_membership_settings,
}
use testchain.Configs.Settings.Democracy.{
  treasury_settings, democracy_settings, scheduler_settings, preimage_settings,
}
use testchain.Configs.Settings.{Setting, Table, lookup}

-- The settings of a pallet, in a build with or without the feature `runtime-benchmarks`.
unfoldable pub settings : Bool → Pallet → Table
settings benchmarks system = system_settings
settings benchmarks timestamp = timestamp_settings
settings benchmarks grandpa = grandpa_settings
settings benchmarks balances = balances_settings
settings benchmarks transaction_payment = transaction_payment_settings
settings benchmarks sudo = sudo_settings
settings benchmarks template_module = template_module_settings
settings benchmarks evm = evm_settings
settings benchmarks evm_chain_id = evm_chain_id_settings
settings benchmarks ethereum = ethereum_settings
settings benchmarks dynamic_fee = dynamic_fee_settings
settings benchmarks base_fee = base_fee_settings
settings benchmarks babe = babe_settings
settings benchmarks treasury = treasury_settings benchmarks
settings benchmarks authorship = authorship_settings
settings benchmarks utility = utility_settings
settings benchmarks offences = offences_settings
settings benchmarks im_online = im_online_settings
settings benchmarks election_provider_multi_phase = election_provider_multi_phase_settings
settings benchmarks staking = staking_settings
settings benchmarks fast_unstake = fast_unstake_settings
settings benchmarks session = session_settings
settings benchmarks democracy = democracy_settings
settings benchmarks council = council_settings
settings benchmarks technical_committee = technical_committee_settings
settings benchmarks elections = elections_settings
settings benchmarks technical_membership = technical_membership_settings
settings benchmarks voter_list = voter_list_settings
settings benchmarks historical = historical_settings
settings benchmarks scheduler = scheduler_settings benchmarks
settings benchmarks preimage = preimage_settings
settings benchmarks nomination_pools = nomination_pools_settings
settings benchmarks randomness_collective_flip = randomness_collective_flip_settings
settings benchmarks contracts = contracts_settings benchmarks

module _ {ℓ} (P : Pallet → Type ℓ) where
  -- What holds along the list of the pallets holds of each.
  pub every : All P all_pallets → (p : Pallet) → P p
  every h system = h.0
  every h timestamp = h.1.0
  every h grandpa = h.1.1.0
  every h balances = h.1.1.1.0
  every h transaction_payment = h.1.1.1.1.0
  every h sudo = h.1.1.1.1.1.0
  every h template_module = h.1.1.1.1.1.1.0
  every h evm = h.1.1.1.1.1.1.1.0
  every h evm_chain_id = h.1.1.1.1.1.1.1.1.0
  every h ethereum = h.1.1.1.1.1.1.1.1.1.0
  every h dynamic_fee = h.1.1.1.1.1.1.1.1.1.1.0
  every h base_fee = h.1.1.1.1.1.1.1.1.1.1.1.0
  every h babe = h.1.1.1.1.1.1.1.1.1.1.1.1.0
  every h treasury = h.1.1.1.1.1.1.1.1.1.1.1.1.1.0
  every h authorship = h.1.1.1.1.1.1.1.1.1.1.1.1.1.1.0
  every h utility = h.1.1.1.1.1.1.1.1.1.1.1.1.1.1.1.0
  every h offences = h.1.1.1.1.1.1.1.1.1.1.1.1.1.1.1.1.0
  every h im_online = h.1.1.1.1.1.1.1.1.1.1.1.1.1.1.1.1.1.0
  every h election_provider_multi_phase = h.1.1.1.1.1.1.1.1.1.1.1.1.1.1.1.1.1.1.0
  every h staking = h.1.1.1.1.1.1.1.1.1.1.1.1.1.1.1.1.1.1.1.0
  every h fast_unstake = h.1.1.1.1.1.1.1.1.1.1.1.1.1.1.1.1.1.1.1.1.0
  every h session = h.1.1.1.1.1.1.1.1.1.1.1.1.1.1.1.1.1.1.1.1.1.0
  every h democracy = h.1.1.1.1.1.1.1.1.1.1.1.1.1.1.1.1.1.1.1.1.1.1.0
  every h council = h.1.1.1.1.1.1.1.1.1.1.1.1.1.1.1.1.1.1.1.1.1.1.1.0
  every h technical_committee = h.1.1.1.1.1.1.1.1.1.1.1.1.1.1.1.1.1.1.1.1.1.1.1.1.0
  every h elections = h.1.1.1.1.1.1.1.1.1.1.1.1.1.1.1.1.1.1.1.1.1.1.1.1.1.0
  every h technical_membership = h.1.1.1.1.1.1.1.1.1.1.1.1.1.1.1.1.1.1.1.1.1.1.1.1.1.1.0
  every h voter_list = h.1.1.1.1.1.1.1.1.1.1.1.1.1.1.1.1.1.1.1.1.1.1.1.1.1.1.1.0
  every h historical = h.1.1.1.1.1.1.1.1.1.1.1.1.1.1.1.1.1.1.1.1.1.1.1.1.1.1.1.1.0
  every h scheduler = h.1.1.1.1.1.1.1.1.1.1.1.1.1.1.1.1.1.1.1.1.1.1.1.1.1.1.1.1.1.0
  every h preimage = h.1.1.1.1.1.1.1.1.1.1.1.1.1.1.1.1.1.1.1.1.1.1.1.1.1.1.1.1.1.1.0
  every h nomination_pools = h.1.1.1.1.1.1.1.1.1.1.1.1.1.1.1.1.1.1.1.1.1.1.1.1.1.1.1.1.1.1.1.0
  every h randomness_collective_flip =
      h.1.1.1.1.1.1.1.1.1.1.1.1.1.1.1.1.1.1.1.1.1.1.1.1.1.1.1.1.1.1.1.1.0
  every h contracts = h.1.1.1.1.1.1.1.1.1.1.1.1.1.1.1.1.1.1.1.1.1.1.1.1.1.1.1.1.1.1.1.1.1.0

abbrev pub holds_for : (Pallet → Bool) → List Pallet → Bool
holds_for f [] = true
holds_for f (p ∷ ps) = f p && holds_for f ps

holds_for-All :
    (f : Pallet → Bool) (ps : List Pallet) → holds_for f ps ≡ true → All (λ p. f p ≡ true) ps
holds_for-All f [] h = tt
holds_for-All f (p ∷ ps) h =
    let parts : (f p ≡ true) × (holds_for f ps ≡ true) = (ground arith, ground arith) in
    (parts.0, holds_for-All f ps parts.1)

pub every_true : (f : Pallet → Bool) → holds_for f all_pallets ≡ true → (p : Pallet) → f p ≡ true
every_true f h = every (λ p. f p ≡ true) (holds_for-All f all_pallets h)

-- A test of every setting of a table.
abbrev pub all_settings : (String → Setting → Bool) → Table → Bool
all_settings test [] = true
all_settings test ((k, s) ∷ rows) = test k s && all_settings test rows

pub all_settings-lookup :
    (test : String → Setting → Bool) (rows : Table) (key : String) (s : Setting)
    → all_settings test rows ≡ true
    → lookup key rows ≡ some s
    → test key s ≡ true
all_settings-lookup test [] key s h k = absurd (cc)
all_settings-lookup test ((j, r) ∷ rows) key s h k =
    grind (arith, eq_iff j key, some-injective, all_settings-lookup test rows key s)
