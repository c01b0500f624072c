-- ===== src/Examples/Accounts.antt =====
-- The genesis state of two authorities and one nominator, with numbers as accounts and keys and a
-- generator that takes from the front.
use mathlib.Core.List.{Nodup, Pairwise-singleton}
use testchain.Base.Result.{ok}
use testchain.Genesis.Accounts.{holders-Nodup}
use testchain.Genesis.Load.{load_spec-id}
use testchain.Genesis.Nominations.{IsSound, stakers-IsSound}
use mathlib.Core.Logic.{◌∨₁◌}
use mathlib.Core.Path.{subst}
use mathlib.Core.List.{Mem, mem-append_left, concat}
use testchain.Base.{
  ℕ_discrete, ℕ, ◌+◌, ◌*◌, ◌≤◌, none, some, List, [], ◌∷◌, ◌++◌, ◌≡◌, ◌≢◌, ◌↔◌, refl, ℕ_discrete,
  arith, String, Option, length, map, take, drop, length-take, take-append-drop, All,
}
use testchain.Genesis.Keys.{Crypto, Authority, get_account_id_from_seed, authority_keys_from_seed}
use testchain.Base.Result.{Result, err}
use testchain.Genesis.Stakers.{
  Rng, Staker, stakers, nominator_entry, nominator_entries, validator, nominator, stash_balance,
  endowment, stashes,
}
use testchain.Genesis.State.{GenesisState, testnet_genesis, state_of}
use testchain.Genesis.Endow.{endow}
use testchain.Genesis.Nominations.{IsChooser, staker_stashes}
use testchain.Genesis.Bonds.{IsBonded, stakers-IsBonded}
use testchain.Genesis.Accounts.{holders, holders_lem}
use testchain.Genesis.Council.{council, council_lem, IsCovered}
use testchain.Genesis.Validators.{
  session_validators, with_keys, validators, accounts_of, session_validators_lem,
}
use testchain.Genesis.Specs.{ChainSpec, Code, development, properties, development_config}
use testchain.Genesis.Determinism.{IsQuiet, load_spec-IsQuiet}
use testchain.Genesis.Load.{load_spec, is_development}
use testchain.Genesis.Fits.{IsFitting, built_in-IsFitting}
use testchain.Genesis.Panics.{testnet_genesis-none_iff}

abbrev pub crypto : Crypto
crypto = record {
  AccountId = ℕ;
  Sr25519Public = ℕ;
  BabeId = ℕ;
  GrandpaId = ℕ;
  ImOnlineId = ℕ;
  eq = ℕ_discrete;
  sr25519_from_string = λ s. some 1;
  babe_from_string = λ s. some 2;
  grandpa_from_string = λ s. some 3;
  im_online_from_string = λ s. some 4;
  into_account = λ public. public;
}

abbrev pub rng : Rng (Authority crypto)
rng = record { State = ℕ; gen = λ s. (s, s + 1); choose_multiple = λ xs n s. (take n xs, s + 1) }

rng-IsChooser : IsChooser crypto rng
rng-IsChooser = record {
  length-choose_multiple = λ xs n s. omega (arith, length-take n xs);
  Subset-choose_multiple =
      λ xs n s a m. subst (Mem a) (take-append-drop n xs) (mem-append_left (drop n xs) m);
}

abbrev authority : ℕ → Authority crypto
authority n = record { stash = n; controller = n + 100; babe = n; grandpa = n; im_online = n }

abbrev pub authorities : List (Authority crypto)
authorities = authority 1 ∷ authority 2 ∷ []

abbrev all_stakers : List (Staker crypto)
all_stakers =
    record { stash = 1; controller = 101; balance = stash_balance; status = validator }
    ∷ record { stash = 2; controller = 102; balance = stash_balance; status = validator }
    ∷ record { stash = 3; controller = 3; balance = stash_balance; status = nominator (1 ∷ []) }
    ∷ []

-- The stash of the first authority is also among the accounts.
abbrev pub accounts : List ℕ
accounts = 1 ∷ []

abbrev pub genesis : GenesisState crypto
genesis = state_of crypto rng 7 (1 ∷ 2 ∷ 3 ∷ []) authorities all_stakers 42

built_stakers : stakers crypto rng authorities (3 ∷ []) 5 ≡ some (all_stakers, 7)
unfolding stakers nominator_entries nominator_entry
built_stakers = refl

pub built : testnet_genesis crypto rng 7 accounts authorities (3 ∷ []) 42 5 ≡ some (genesis, 7)
unfolding testnet_genesis stakers nominator_entries nominator_entry endow ℕ_discrete concat
built = refl

stakers-IsBonded_example :
    All (IsBonded crypto rng genesis) genesis.staking.stakers
    × (staker_stashes crypto rng genesis.staking.stakers
        ≡ stashes crypto rng authorities ++ (3 ∷ []))
stakers-IsBonded_example =
    stakers-IsBonded crypto rng 7 accounts authorities (3 ∷ []) 42 5 7 genesis built rng-IsChooser

holders_lem_example :
    (Mem 3 (holders crypto rng genesis)
      ↔ (Mem 3 accounts ∨₁ Mem 3 (stashes crypto rng authorities ++ (3 ∷ []))))
    × All (λ (e : ℕ × ℕ). e.1 ≡ endowment) genesis.balances
holders_lem_example = holders_lem crypto rng 7 accounts authorities (3 ∷ []) 42 5 7 genesis built 3

council_lem_example :
    (council crypto rng genesis ≡ genesis.technical_committee_members)
    × ((rest : List ℕ) × (holders crypto rng genesis ≡ council crypto rng genesis ++ rest))
    × (length (holders crypto rng genesis) ≤ 2 * length (council crypto rng genesis))
    × (2 * length (council crypto rng genesis) ≤ length (holders crypto rng genesis) + 1)
    × All (IsCovered crypto rng genesis) genesis.elections_members
council_lem_example = council_lem crypto rng 7 accounts authorities (3 ∷ []) 42 5 7 genesis built

session_validators_lem_example :
    (session_validators crypto genesis ≡ map (with_keys crypto rng) authorities)
    × (validators crypto genesis.staking.stakers
        ≡ accounts_of crypto (session_validators crypto genesis))
    × (genesis.staking.invulnerables ≡ accounts_of crypto (session_validators crypto genesis))
    × (genesis.staking.validator_count ≡ length genesis.session_keys)
    × (genesis.staking.minimum_validator_count ≡ length genesis.session_keys)
session_validators_lem_example =
    session_validators_lem crypto rng 7 accounts authorities (3 ∷ []) 42 5 7 genesis built
      (omega arith)

abbrev no_authority : List (Authority crypto)
no_authority = []

abbrev one_nominator : List ℕ
one_nominator = 3 ∷ []

testnet_genesis-none_iff_example :
    (testnet_genesis crypto rng 7 accounts no_authority one_nominator 42 5 ≡ none)
    ↔ ((no_authority ≡ []) × (one_nominator ≢ []))
testnet_genesis-none_iff_example =
    testnet_genesis-none_iff crypto rng 7 accounts no_authority one_nominator 42 5

abbrev wasm_binary : Option Code
wasm_binary = some (0 ∷ 97 ∷ 115 ∷ 109 ∷ [])

abbrev no_file : String → Result String (ChainSpec crypto)
no_file path = err "there is no such file"

abbrev chain_spec : Option (ChainSpec crypto × ℕ) → ChainSpec crypto
chain_spec (some (made, rng')) = made
chain_spec none = record {
  name = "";
  id = "";
  chain_type = development;
  code = [];
  properties = properties;
  genesis = genesis;
}

abbrev dev : ChainSpec crypto
dev = chain_spec (development_config crypto rng wasm_binary 5)

built_dev : development_config crypto rng wasm_binary 5 ≡ some (dev, 5)
unfolding development_config testnet_genesis stakers nominator_entries endow ℕ_discrete concat
    get_account_id_from_seed authority_keys_from_seed
built_dev = refl

built_in-IsFitting_example : IsFitting crypto rng dev.genesis
built_in-IsFitting_example =
    built_in-IsFitting crypto rng wasm_binary (development_config crypto rng wasm_binary 5) 5 5 dev
      (is_development 5) built_dev

load_spec-IsQuiet_example : IsQuiet (load_spec crypto rng wasm_binary no_file "testnet")
load_spec-IsQuiet_example = load_spec-IsQuiet crypto rng wasm_binary no_file "testnet"

one_account : Nodup accounts
one_account = Pairwise-singleton _ 1

holders-Nodup_example : Nodup (holders crypto rng genesis)
holders-Nodup_example =
    holders-Nodup crypto rng 7 accounts authorities (3 ∷ []) 42 5 7 genesis built one_account

load_spec-id_example : load_spec crypto rng wasm_binary no_file dev.id 5 ≡ some (ok dev, 5)
load_spec-id_example =
    load_spec-id crypto rng wasm_binary no_file 5 5 dev (is_development 5) built_dev

stakers-IsSound_example :
    All (IsSound crypto rng authorities) all_stakers
    × (staker_stashes crypto rng all_stakers ≡ stashes crypto rng authorities ++ (3 ∷ []))
stakers-IsSound_example =
    stakers-IsSound crypto rng rng-IsChooser authorities (3 ∷ []) 5 7 all_stakers built_stakers
