-- ===== src/Genesis/Load.antt =====
-- `load_spec` of node/src/command.rs: the chain specification that an identifier names.
use text.Mathlib.Text.{◌==◌ as str_eq}
use testchain.Base.{
  ◌≡◌, refl, sym, ap, ◌∙◌, String, Option, none, some, [], ◌∷◌, if◌then◌else◌, ◌||◌,
}
use testchain.Base.OptionMonad.{◌>>=◌}
use testchain.Base.Result.{Result, ok}
use mathlib.Core.Option.{some-injective}
use testchain.Genesis.Keys.{Crypto, Authority}
use testchain.Genesis.Stakers.{Rng}
use testchain.Genesis.Specs.{
  ChainType, development, local, custom, twelve_seeds, Code, ChainSpec, genesis_from_seeds,
  development_config, local_testnet_config, testnet_config, spec, genesis_from_seeds,
}
use testchain.Genesis.State.{GenesisState}

module _ (C : Crypto) (R : Rng (Authority C)) (wasm_binary : Option Code) where
  open R use {State}

  abbrev Loaded : Type 0
  Loaded = Option (Result String (ChainSpec C) × State)

  abbrev pub built : Option (ChainSpec C × State) → Loaded
  built none = none
  built (some (spec, rng)) = some (ok spec, rng)

  -- `load_spec`, with `ChainSpec::from_json_file`. A panic is `none`.
  unfoldable pub load_spec : (String → Result String (ChainSpec C)) → String → State → Loaded
  load_spec from_json_file id rng =
      if str_eq id "dev"
      then built (development_config C R wasm_binary rng)
      else if str_eq id "" || str_eq id "local"
      then built (local_testnet_config C R wasm_binary rng)
      else if str_eq id "testnet"
      then built (testnet_config C R wasm_binary rng)
      else some (from_json_file id, rng)

  -- The specifications that the node builds itself.
  pub data IsBuiltIn : Option (ChainSpec C × State) → State → Type 0 where
    is_development : (rng : State) → IsBuiltIn (development_config C R wasm_binary rng) rng
    is_local_testnet : (rng : State) → IsBuiltIn (local_testnet_config C R wasm_binary rng) rng
    is_testnet : (rng : State) → IsBuiltIn (testnet_config C R wasm_binary rng) rng

  id-spec :
      (name : String) {id : String} (chain_type : ChainType) (w : Option Code)
      (o : Option (GenesisState C × State)) {made : ChainSpec C} {rng : State}
      → (do code ← w; from_seeds ← o; some (spec C R name id chain_type code from_seeds))
        ≡ some (made, rng)
      → made.id ≡ id
  id-spec name chain_type none o h = cc
  id-spec name chain_type (some code) none h = cc
  id-spec name chain_type (some code) (some (g, rng')) h =
      ap (λ c. c.0.id) (sym (some-injective _ _ h))

  id-development :
      (rng : State) {rng' : State} {made : ChainSpec C}
      → development_config C R wasm_binary rng ≡ some (made, rng')
      → made.id ≡ "dev"
  unfolding development_config
  id-development rng h =
      id-spec "Development" development wasm_binary
        (genesis_from_seeds C R "Alice" ("Alice" ∷ "Bob" ∷ "Alice//stash" ∷ "Bob//stash" ∷ [])
          ("Alice" ∷ []) rng)
        h

  id-local_testnet :
      (rng : State) {rng' : State} {made : ChainSpec C}
      → local_testnet_config C R wasm_binary rng ≡ some (made, rng')
      → made.id ≡ "local"
  unfolding local_testnet_config
  id-local_testnet rng h =
      id-spec "Local Testnet" local wasm_binary
        (genesis_from_seeds C R "Alice" (twelve_seeds C R) ("Alice" ∷ "Bob" ∷ []) rng) h

  id-testnet :
      (rng : State) {rng' : State} {made : ChainSpec C}
      → testnet_config C R wasm_binary rng ≡ some (made, rng')
      → made.id ≡ "testnet"
  unfolding testnet_config
  id-testnet rng h =
      id-spec "HaHaXiao Testnet" (custom "Testnet") wasm_binary
        (genesis_from_seeds C R "Alice" (twelve_seeds C R) ("Alice" ∷ "Bob" ∷ "Charlie" ∷ []) rng) h

  loaded :
      (load : String → Loaded) {id : String} (o : Option (ChainSpec C × State)) (made : ChainSpec C)
      {rng' : State}
      → made.id ≡ id
      → o ≡ some (made, rng')
      → load id ≡ built o
      → load made.id ≡ some (ok made, rng')
  loaded load o made e h by_id = ap load e ∙ by_id ∙ ap built h

  -- A specification that the node builds itself, where that does not panic, is what its own identifier
  -- loads, whatever files there are, and with the same use of the random number generator.
  pub load_spec-id :
      (from_json_file : String → Result String (ChainSpec C)) (rng rng' : State)
      (made : ChainSpec C) {o : Option (ChainSpec C × State)}
      → IsBuiltIn o rng
      → o ≡ some (made, rng')
      → load_spec from_json_file made.id rng ≡ some (ok made, rng')
  unfolding load_spec
  load_spec-id from_json_file rng rng' made (is_development _) h =
      loaded (λ id. load_spec from_json_file id rng) _ made (id-development rng h) h refl
  load_spec-id from_json_file rng rng' made (is_local_testnet _) h =
      loaded (λ id. load_spec from_json_file id rng) _ made (id-local_testnet rng h) h refl
  load_spec-id from_json_file rng rng' made (is_testnet _) h =
      loaded (λ id. load_spec from_json_file id rng) _ made (id-testnet rng h) h refl
