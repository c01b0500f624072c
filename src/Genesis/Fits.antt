-- ===== src/Genesis/Fits.antt =====
-- The genesis states of node/src/chain_spec.rs against the bounds of runtime/src/configs/mod.rs.
use mathlib.Core.Logic.{if_pos, if_neg}
use mathlib.Core.List.{dec_mem, concat-eq-append}
use mathlib.Core.Path.{subst}
use testchain.Base.{
  ℕ, ◌+◌, ◌≤◌, ◌/◌, some, Option, List, [], ◌∷◌, ◌++◌, ◌≡◌, sym, ap, map, length, length-append,
  length-map, length-take, All, String, arith,
}
use testchain.Base.OptionMonad.{◌>>=◌, >>=-eq-some}
use testchain.Configs.Bonds.{existential_deposit}
use testchain.Configs.Bounds.{
  grandpa_max_authorities, babe_max_authorities, max_active_validators, council_max_members,
  technical_max_members, desired_members,
}
use testchain.Genesis.Keys.{Crypto, Authority, get_account_id_from_seed, authority_keys_from_seed}
use testchain.Genesis.Endow.{endow, endow_one}
use testchain.Genesis.Stakers.{Rng, stashes, endowment, stash_balance}
use testchain.Genesis.State.{GenesisState, testnet_genesis, endowed, members, key_entry}
use testchain.Genesis.Accounts.{genesis_parts}
use mathlib.Core.Option.{some-injective}
use testchain.Genesis.Specs.{
  ChainType, Code, development, local, custom, ss58_prefix, ChainSpec, traverse, genesis_from_seeds,
  spec, twelve_seeds, development_config, local_testnet_config, testnet_config,
}
use testchain.Genesis.Load.{IsBuiltIn, is_development, is_local_testnet, is_testnet}

module _ {A : Type 0} (eq : Discrete A) where
  length-endow_one : (xs : List A) (x : A) → length (endow_one eq xs x) ≤ length xs + 1
  length-endow_one xs x = elim (dec_mem eq x xs) [
    | yes p ↦ rw (if_pos _ p) (omega arith)
    | no p ↦ rw (if_neg _ p, concat-eq-append xs x) (omega (arith, length-append xs (x ∷ [])))
  ]

  -- The loop adds no more than it is given.
  length-endow : (xs ys : List A) → length (endow eq xs ys) ≤ length xs + length ys
  unfolding endow
  length-endow xs [] = omega arith
  length-endow xs (y ∷ ys) =
      omega (arith, length-endow (endow_one eq xs y) ys, length-endow_one xs y)

length-traverse :
    {A B : Type 0} (f : A → Option B) (xs : List A) (ys : List B)
    → traverse f xs ≡ some ys
    → length ys ≡ length xs
length-traverse f [] ys h = ground (arith, h)
length-traverse f (x ∷ xs) ys h =
    let (y, one, h₁) = >>=-eq-some (f x) _ h in
    let (zs, rest, h₂) = >>=-eq-some (traverse f xs) _ h₁ in
    ground (arith, h₂, length-traverse f xs zs rest)

module _ (C : Crypto) (R : Rng (Authority C)) where
  -- What the pallets, as the runtime configures them, take of a genesis state.
  pub record IsFitting (g : GenesisState C) : Type 0 where
    pub elected : length g.elections_members ≤ desired_members
    pub council : length g.elections_members ≤ council_max_members
    pub committee : length g.technical_committee_members ≤ technical_max_members
    pub babe : length g.session_keys ≤ babe_max_authorities
    pub grandpa : length g.session_keys ≤ grandpa_max_authorities
    pub validators : g.staking.validator_count ≤ max_active_validators
    pub deposits : All (λ (e : C.AccountId × ℕ). existential_deposit ≤ e.1) g.balances

  deposits_lem :
      (xs : List C.AccountId)
      → All (λ (e : C.AccountId × ℕ). existential_deposit ≤ e.1) (map (λ k. (k, endowment)) xs)
  deposits_lem [] = tt
  deposits_lem (x ∷ xs) = (omega arith, deposits_lem xs)

  genesis-IsFitting :
      (sudo_key : C.AccountId) (accounts : List C.AccountId) (authorities : List (Authority C))
      (nominators : List C.AccountId) (chain_id : ℕ) (rng rng' : R.State) (g : GenesisState C)
      → testnet_genesis C R sudo_key accounts authorities nominators chain_id rng ≡ some (g, rng')
      → length accounts + length authorities + length nominators ≤ 26
      → IsFitting g
  genesis-IsFitting sudo_key accounts authorities nominators chain_id rng rng' g built small =
      let (ss, _, e) =
        genesis_parts C R sudo_key accounts authorities nominators chain_id rng rng' g built in
      let xs = endowed C R accounts authorities nominators in
      let more = length-endow C.eq accounts (stashes C R authorities ++ nominators) in
      let both = length-append (stashes C R authorities) nominators in
      let names = length-map (λ (x : Authority C). x.stash) authorities in
      let taken = length-take ((length xs + 1) / 2) xs in
      let of_members =
        length-map {B = C.AccountId × ℕ} (λ (m : C.AccountId). (m, stash_balance))
          (members C R xs) in
      let entries = length-map (key_entry C R) authorities in
      subst IsFitting (sym e) (record {
        elected = omega (arith, small, more, both, names, taken, of_members);
        council = omega (arith, small, more, both, names, taken, of_members);
        committee = omega (arith, small, more, both, names, taken);
        babe = omega (arith, small, entries);
        grandpa = omega (arith, small, entries);
        validators = omega (arith, small);
        deposits = deposits_lem xs;
      })

  seeds-IsFitting :
      (sudo : String) (funded authorities : List String) (rng rng' : R.State) (g : GenesisState C)
      → genesis_from_seeds C R sudo funded authorities rng ≡ some (g, rng')
      → length funded + length authorities ≤ 26
      → IsFitting g
  seeds-IsFitting sudo funded authorities rng rng' g h small =
      let (key, _, h₁) = >>=-eq-some (get_account_id_from_seed C sudo) _ h in
      let (accounts, some_accounts, h₂) =
        >>=-eq-some (traverse (get_account_id_from_seed C) funded) _ h₁ in
      let (keys, some_keys, h₃) =
        >>=-eq-some (traverse (authority_keys_from_seed C) authorities) _ h₂ in
      let a = length-traverse (get_account_id_from_seed C) funded accounts some_accounts in
      let b = length-traverse (authority_keys_from_seed C) authorities keys some_keys in
      genesis-IsFitting key accounts keys [] ss58_prefix rng rng' g h₃ (omega (arith, a, b, small))

  spec-IsFitting :
      (w : Option Code) (name id : String) (chain_type : ChainType)
      (o : Option (GenesisState C × R.State)) (made : ChainSpec C) (rng' : R.State)
      → ((g : GenesisState C) (rng₁ : R.State) → o ≡ some (g, rng₁) → IsFitting g)
      → (do code ← w; from_seeds ← o; some (spec C R name id chain_type code from_seeds))
        ≡ some (made, rng')
      → IsFitting made.genesis
  spec-IsFitting w name id chain_type o made rng' fits h =
      let (code, _, h₀) = >>=-eq-some w _ h in
      let ((g, rng₁), built, h₁) = >>=-eq-some o _ h₀ in
      let same = ap (λ p. p.0.genesis) (some-injective _ _ h₁) in
      subst IsFitting same (fits g rng₁ built)

module _ (C : Crypto) (R : Rng (Authority C)) (wasm_binary : Option Code) where
  -- The genesis state of each built-in chain specification, where it is built, is within the bounds
  -- that the runtime sets: no more members of the council than are to be elected, nor than the council
  -- and the committee take; no more authorities than BABE and GRANDPA take, nor validators than there
  -- may be active; and every balance reaches the existential deposit.
  pub built_in-IsFitting :
      (o : Option (ChainSpec C × R.State)) (rng rng' : R.State) (made : ChainSpec C)
      → IsBuiltIn C R wasm_binary o rng
      → o ≡ some (made, rng')
      → IsFitting C R made.genesis
  unfolding development_config local_testnet_config testnet_config
  built_in-IsFitting _ rng rng' made (is_development _) h =
      spec-IsFitting C R wasm_binary "Development" "dev" development _ made rng'
        (λ g rng₁ e.
          seeds-IsFitting C R "Alice" ("Alice" ∷ "Bob" ∷ "Alice//stash" ∷ "Bob//stash" ∷ [])
            ("Alice" ∷ []) rng rng₁ g e (omega arith))
        h
  built_in-IsFitting _ rng rng' made (is_local_testnet _) h =
      spec-IsFitting C R wasm_binary "Local Testnet" "local" local _ made rng'
        (λ g rng₁ e.
          seeds-IsFitting C R "Alice" (twelve_seeds C R) ("Alice" ∷ "Bob" ∷ []) rng rng₁ g e
            (omega arith))
        h
  built_in-IsFitting _ rng rng' made (is_testnet _) h =
      spec-IsFitting C R wasm_binary "HaHaXiao Testnet" "testnet" (custom "Testnet") _ made rng'
        (λ g rng₁ e.
          seeds-IsFitting C R "Alice" (twelve_seeds C R) ("Alice" ∷ "Bob" ∷ "Charlie" ∷ []) rng rng₁
            g e (omega arith))
        h
