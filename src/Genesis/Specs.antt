-- ===== src/Genesis/Specs.antt =====
-- The chain specifications of node/src/chain_spec.rs (lines 42 to 137 and 306 to 316).
use testchain.Base.{ℕ, String, Option, some, List, [], ◌∷◌}
use testchain.Base.OptionMonad.{◌>>=◌}
use testchain.Genesis.Keys.{Crypto, Authority, get_account_id_from_seed, authority_keys_from_seed}
use testchain.Genesis.Stakers.{Rng}
use testchain.Genesis.State.{GenesisState, testnet_genesis}

-- `ChainType` of the crate `sc_chain_spec`
pub data ChainType : Type 0 where
  development local live : ChainType
  custom : String → ChainType

-- `SS58Prefix` of runtime/src/configs/mod.rs
abbrev pub ss58_prefix : ℕ
ss58_prefix = 42

-- `properties`; the map of JSON values as a record of its three entries.
pub record Properties : Type 0 where
  pub token_symbol : String
  pub token_decimals : ℕ
  pub ss58_format : ℕ

abbrev pub properties : Properties
properties = record { token_symbol = "HAO"; token_decimals = 18; ss58_format = ss58_prefix }

-- The bytes of the runtime that its build gives.
abbrev pub Code : Type 0
Code = List ℕ

module _ (C : Crypto) where
  -- What the builder of a `ChainSpec` is given.
  pub record ChainSpec : Type 0 where
    pub name : String
    pub id : String
    pub chain_type : ChainType
    pub code : Code
    pub properties : Properties
    pub genesis : GenesisState C

module _ {A B : Type 0} where
  -- The items of a `vec![f(a), f(b), …]`, computed in order; a panic of one is a panic.
  abbrev pub traverse : (A → Option B) → List A → Option (List B)
  traverse f [] = some []
  traverse f (x ∷ xs) = do y ← f x; ys ← traverse f xs; some (y ∷ ys)

module _ (C : Crypto) (R : Rng (Authority C)) where
  open R use {State}

  -- The call of `testnet_genesis` that the three functions make, from seeds: the sudo account, the
  -- pre-funded accounts and the authorities, in the order in which their keys are derived.
  abbrev pub genesis_from_seeds :
      String → List String → List String → State → Option (GenesisState C × State)
  genesis_from_seeds sudo funded authorities rng = do
    sudo_key ← get_account_id_from_seed C sudo
    endowed_accounts ← traverse (get_account_id_from_seed C) funded
    initial_authorities ← traverse (authority_keys_from_seed C) authorities
    testnet_genesis C R sudo_key endowed_accounts initial_authorities [] ss58_prefix rng

  abbrev pub spec :
      String → String → ChainType → Code → GenesisState C × State → ChainSpec C × State
  spec name id chain_type code (genesis, rng) = (
    record {
      name = name;
      id = id;
      chain_type = chain_type;
      code = code;
      properties = properties;
      genesis = genesis;
    },
    rng,
  )

  -- The pre-funded accounts of the local and the test network.
  abbrev pub twelve_seeds : List String
  twelve_seeds =
      "Alice" ∷ "Bob" ∷ "Charlie" ∷ "Dave" ∷ "Eve" ∷ "Ferdie" ∷ "Alice//stash" ∷ "Bob//stash"
      ∷ "Charlie//stash" ∷ "Dave//stash" ∷ "Eve//stash" ∷ "Ferdie//stash" ∷ []

-- `wasm_binary` is `WASM_BINARY`, which the build of the runtime sets: `none` where it builds no
-- WebAssembly, and there `expect` panics.
module _ (C : Crypto) (R : Rng (Authority C)) (wasm_binary : Option Code) where
  open R use {State}

  -- `development_config`
  unfoldable pub development_config : State → Option (ChainSpec C × State)
  development_config rng = do
    code ← wasm_binary
    built ←
        genesis_from_seeds C R "Alice" ("Alice" ∷ "Bob" ∷ "Alice//stash" ∷ "Bob//stash" ∷ [])
          ("Alice" ∷ []) rng
    some (spec C R "Development" "dev" development code built)

  -- `local_testnet_config`
  unfoldable pub local_testnet_config : State → Option (ChainSpec C × State)
  local_testnet_config rng = do
    code ← wasm_binary
    built ← genesis_from_seeds C R "Alice" (twelve_seeds C R) ("Alice" ∷ "Bob" ∷ []) rng
    some (spec C R "Local Testnet" "local" local code built)

  -- `testnet_config`
  unfoldable pub testnet_config : State → Option (ChainSpec C × State)
  testnet_config rng = do
    code ← wasm_binary
    built ← genesis_from_seeds C R "Alice" (twelve_seeds C R) ("Alice" ∷ "Bob" ∷ "Charlie" ∷ []) rng
    some (spec C R "HaHaXiao Testnet" "testnet" (custom "Testnet") code built)
