-- ===== src/Genesis/Determinism.antt =====
-- The chain specifications of node/src/chain_spec.rs and node/src/command.rs against the random
-- number generator that `testnet_genesis` makes.
use text.Mathlib.Text.{◌==◌ as str_eq}
use testchain.Base.{
  ℕ, Bool, true, false, String, Option, none, some, List, [], ◌∷◌, ◌≡◌, refl, ap, ◌∙◌,
  if◌then◌else◌, ◌||◌,
}
use testchain.Base.OptionMonad.{◌>>=◌}
use testchain.Base.Result.{Result, ok}
use testchain.Genesis.Keys.{Crypto, Authority, get_account_id_from_seed, authority_keys_from_seed}
use testchain.Genesis.Stakers.{Rng, stakers, nominator_entries}
use testchain.Genesis.State.{GenesisState, testnet_genesis}
use testchain.Genesis.Specs.{
  Code, ChainSpec, ChainType, development, local, custom, traverse, spec, genesis_from_seeds,
  twelve_seeds, development_config, local_testnet_config, testnet_config,
}
use testchain.Genesis.Load.{load_spec, built}

module _ {S : Type 0} where
  abbrev with_state : {A : Type 0} → Option A → S → Option (A × S)
  with_state none rng = none
  with_state (some a) rng = some (a, rng)

  -- A computation that neither reads nor changes the state.
  abbrev pub IsQuiet : {A : Type 0} → (S → Option (A × S)) → Type 0
  IsQuiet {A} f = (o : Option A) × ((rng : S) → f rng ≡ with_state o rng)

  bind-IsQuiet :
      {A B : Type 0} (m : Option A) (f : A → S → Option (B × S))
      → ((a : A) → IsQuiet (f a))
      → IsQuiet (λ rng. m >>= λ a. f a rng)
  bind-IsQuiet none f h = (none, λ rng. refl)
  bind-IsQuiet (some a) f h = h a

  if-IsQuiet :
      {A : Type 0} (b : Bool) (f g : S → Option (A × S))
      → IsQuiet f
      → IsQuiet g
      → IsQuiet (λ rng. if b then f rng else g rng)
  if-IsQuiet true f g h k = h
  if-IsQuiet false f g h k = k

  -- What follows a quiet computation, where it keeps the state.
  then-IsQuiet :
      {A B : Type 0} (f : S → Option (A × S)) (g : Option (A × S) → Option (B × S))
      → ((o : Option A) → IsQuiet (λ rng. g (with_state o rng)))
      → IsQuiet f
      → IsQuiet (λ rng. g (f rng))
  then-IsQuiet f g k (o, h) = ((k o).0, λ rng. ap g (h rng) ∙ (k o).1 rng)

module _ (C : Crypto) (R : Rng (Authority C)) where
  open R use {State}

  genesis-IsQuiet :
      (sudo_key : C.AccountId) (accounts : List C.AccountId) (authorities : List (Authority C))
      (chain_id : ℕ)
      → IsQuiet (testnet_genesis C R sudo_key accounts authorities [] chain_id)
  unfolding testnet_genesis stakers nominator_entries
  genesis-IsQuiet sudo_key accounts authorities chain_id = (some _, λ rng. refl)

  seeds-IsQuiet :
      (sudo : String) (funded authorities : List String)
      → IsQuiet (genesis_from_seeds C R sudo funded authorities)
  seeds-IsQuiet sudo funded authorities =
      bind-IsQuiet (get_account_id_from_seed C sudo) _ (λ sudo_key.
        bind-IsQuiet (traverse (get_account_id_from_seed C) funded) _ (λ accounts.
          bind-IsQuiet (traverse (authority_keys_from_seed C) authorities) _
            (λ keys. genesis-IsQuiet sudo_key accounts keys _)))

  spec-IsQuiet :
      (w : Option Code) (name id : String) (chain_type : ChainType) (sudo : String)
      (funded authorities : List String)
      → IsQuiet (λ rng. w >>= λ code.
          genesis_from_seeds C R sudo funded authorities rng >>= λ from_seeds.
          some (spec C R name id chain_type code from_seeds))
  spec-IsQuiet w name id chain_type sudo funded authorities = bind-IsQuiet w _ (λ code.
      then-IsQuiet (genesis_from_seeds C R sudo funded authorities)
        (λ o. o >>= λ from_seeds. some (spec C R name id chain_type code from_seeds))
        (followed code) (seeds-IsQuiet sudo funded authorities))
    where
      followed :
          (code : Code) (o : Option (GenesisState C))
          → IsQuiet (λ (rng : State).
            with_state o rng >>= λ from_seeds. some (spec C R name id chain_type code from_seeds))
      followed code none = (none, λ rng. refl)
      followed code (some g) = (some _, λ rng. refl)

module _ (C : Crypto) (R : Rng (Authority C)) (wasm_binary : Option Code) where
  open R use {State}

  development-IsQuiet : IsQuiet (development_config C R wasm_binary)
  unfolding development_config
  development-IsQuiet =
      spec-IsQuiet C R wasm_binary "Development" "dev" development "Alice"
        ("Alice" ∷ "Bob" ∷ "Alice//stash" ∷ "Bob//stash" ∷ []) ("Alice" ∷ [])

  local_testnet-IsQuiet : IsQuiet (local_testnet_config C R wasm_binary)
  unfolding local_testnet_config
  local_testnet-IsQuiet =
      spec-IsQuiet C R wasm_binary "Local Testnet" "local" local "Alice" (twelve_seeds C R)
        ("Alice" ∷ "Bob" ∷ [])

  testnet-IsQuiet : IsQuiet (testnet_config C R wasm_binary)
  unfolding testnet_config
  testnet-IsQuiet =
      spec-IsQuiet C R wasm_binary "HaHaXiao Testnet" "testnet" (custom "Testnet") "Alice"
        (twelve_seeds C R) ("Alice" ∷ "Bob" ∷ "Charlie" ∷ [])

  built-IsQuiet :
      (f : State → Option (ChainSpec C × State))
      → IsQuiet f
      → IsQuiet (λ rng. built C R wasm_binary (f rng))
  built-IsQuiet f h = then-IsQuiet f (built C R wasm_binary) followed h
    where
      followed :
          (o : Option (ChainSpec C))
          → IsQuiet (λ (rng : State). built C R wasm_binary (with_state o rng))
      followed none = (none, λ rng. refl)
      followed (some made) = (some (ok made), λ rng. refl)

  -- Loading a chain specification gives every node the same genesis state: whatever the identifier,
  -- what is loaded, a panic included, is one and the same for every state of the random number
  -- generator, which is left as it was.
  pub load_spec-IsQuiet :
      (from_json_file : String → Result String (ChainSpec C)) (id : String)
      → IsQuiet (load_spec C R wasm_binary from_json_file id)
  unfolding load_spec
  load_spec-IsQuiet from_json_file id =
      if-IsQuiet (str_eq id "dev") _ _ (built-IsQuiet _ development-IsQuiet) (
        if-IsQuiet (str_eq id "" || str_eq id "local") _ _ (built-IsQuiet _ local_testnet-IsQuiet) (
          if-IsQuiet (str_eq id "testnet") _ _ (built-IsQuiet _ testnet-IsQuiet)
            (some (from_json_file id), λ rng. refl)))
