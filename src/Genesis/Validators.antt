-- ===== src/Genesis/Validators.antt =====
-- The validators of a genesis state of node/src/chain_spec.rs: in its parts "staking" and "session".
use mathlib.Core.List.{append-nil}
use testchain.Base.{
  ℕ, ◌<◌, ◌^◌, some, List, [], ◌∷◌, ◌++◌, ◌≡◌, refl, sym, ap, ◌∙◌, map, length, length-map, All,
  arith,
}
use testchain.Base.OptionMonad.{>>=-eq-some}
use testchain.Genesis.Keys.{Crypto, Authority, SessionKeys, session_keys}
use testchain.Genesis.Stakers.{
  Rng, Staker, StakerStatus, validator, nominator, stakers, nominator_entry, nominator_entries,
  validator_entry, stashes,
}
use testchain.Genesis.State.{GenesisState, testnet_genesis, key_entry}
use testchain.Genesis.Nominations.{entries_All, entry_value}
use testchain.Genesis.Accounts.{genesis_parts}

module _ (C : Crypto) where
  open C use {AccountId}

  abbrev with_validator : StakerStatus C → AccountId → List AccountId → List AccountId
  with_validator validator stash rest = stash ∷ rest
  with_validator (nominator targets) stash rest = rest

  -- The stashes of the stakers that validate.
  abbrev pub validators : List (Staker C) → List AccountId
  validators [] = []
  validators (s ∷ ss) = with_validator s.status s.stash (validators ss)

  -- The accounts that have session keys, and the keys.
  abbrev pub session_validators : GenesisState C → List (AccountId × SessionKeys C)
  session_validators g =
      map (λ (k : AccountId × AccountId × SessionKeys C). (k.1, k.2)) g.session_keys

  abbrev pub accounts_of : List (AccountId × SessionKeys C) → List AccountId
  accounts_of = map (λ (k : AccountId × SessionKeys C). k.0)

  abbrev IsNominator : StakerStatus C → Type 0
  IsNominator validator = ⊥
  IsNominator (nominator targets) = Unit

  with_validator-append :
      (status : StakerStatus C) (stash : AccountId) (xs ys : List AccountId)
      → with_validator status stash (xs ++ ys) ≡ with_validator status stash xs ++ ys
  with_validator-append validator stash xs ys = refl
  with_validator-append (nominator targets) stash xs ys = refl

  with_validator-nominator :
      (status : StakerStatus C) (stash : AccountId) (xs : List AccountId)
      → IsNominator status
      → with_validator status stash xs ≡ xs
  with_validator-nominator validator stash xs h = absurd h
  with_validator-nominator (nominator targets) stash xs h = refl

  validators-append :
      (xs ys : List (Staker C)) → validators (xs ++ ys) ≡ validators xs ++ validators ys
  validators-append [] ys = refl
  validators-append (s ∷ xs) ys =
      ap (with_validator s.status s.stash) (validators-append xs ys)
      ∙ with_validator-append s.status s.stash (validators xs) (validators ys)

  validators-nominators :
      (ss : List (Staker C)) → All (λ s. IsNominator s.status) ss → validators ss ≡ []
  validators-nominators [] h = refl
  validators-nominators (s ∷ ss) h =
      with_validator-nominator s.status s.stash (validators ss) h.0 ∙ validators-nominators ss h.1

module _ (C : Crypto) (R : Rng (Authority C)) where
  -- The validator of an authority, with its keys.
  abbrev pub with_keys : Authority C → C.AccountId × SessionKeys C
  with_keys a = (a.stash, session_keys C a.babe a.grandpa a.im_online)

  key_entries :
      (authorities : List (Authority C))
      → map
          (λ (k : C.AccountId × C.AccountId × SessionKeys C). (k.1, k.2))
          (map (key_entry C R) authorities)
        ≡ map with_keys authorities
  key_entries [] = refl
  key_entries (a ∷ rest) =
      ap (λ (l : List (C.AccountId × SessionKeys C)). with_keys a ∷ l) (key_entries rest)

  with_keys-stashes :
      (authorities : List (Authority C))
      → accounts_of C (map with_keys authorities) ≡ stashes C R authorities
  with_keys-stashes [] = refl
  with_keys-stashes (a ∷ rest) = ap (λ (l : List C.AccountId). a.stash ∷ l) (with_keys-stashes rest)

  validators-entries :
      (authorities : List (Authority C))
      → validators C (map (validator_entry C R) authorities) ≡ stashes C R authorities
  validators-entries [] = refl
  validators-entries (a ∷ rest) =
      ap (λ (l : List C.AccountId). a.stash ∷ l) (validators-entries rest)

  entry-IsNominator :
      (authorities : List (Authority C)) (x : C.AccountId) (rng rng' : R.State) (s : Staker C)
      → nominator_entry C R authorities x rng ≡ some (s, rng')
      → IsNominator C s.status
  entry-IsNominator authorities x rng rng' s h =
      let (count, rng₀, lt, e) = entry_value C R authorities x rng rng' s h in rw e tt

  validators-stakers :
      (authorities : List (Authority C)) (nominators : List C.AccountId) (rng rng' : R.State)
      (ss : List (Staker C))
      → stakers C R authorities nominators rng ≡ some (ss, rng')
      → validators C ss ≡ stashes C R authorities
  unfolding stakers
  validators-stakers authorities nominators rng rng' ss h =
      let ((rest, rng₁), one, h₁) =
        >>=-eq-some (nominator_entries C R authorities nominators rng) _ h in
      let (all, _) =
        entries_All C R (λ s. IsNominator C s.status) authorities (entry-IsNominator authorities)
          nominators rng rng₁ rest one in
      let e : ss ≡ map (validator_entry C R) authorities ++ rest = ground arith in
      ap (validators C) e
      ∙ validators-append C (map (validator_entry C R) authorities) rest
      ∙ rw
          (
            validators-nominators C rest all,
            append-nil (validators C (map (validator_entry C R) authorities)),
          )
          (validators-entries authorities)

module _ (C : Crypto) (R : Rng (Authority C)) (sudo_key : C.AccountId) (accounts : List C.AccountId)
    (authorities : List (Authority C)) (nominators : List C.AccountId) (chain_id : ℕ)
    (rng rng' : R.State) (g : GenesisState C)
    (built : testnet_genesis C R sudo_key accounts authorities nominators chain_id rng
      ≡ some (g, rng')) where
  -- With fewer than 2^32 authorities, the parts "session" and "staking" of a genesis state name the
  -- same validators, in one order: those with session keys are the authorities with their keys, they
  -- are the stakers that validate, and they are the invulnerables; the count of validators and the
  -- least count are their number.
  pub session_validators_lem :
      length authorities < 2 ^ 32
      → (session_validators C g ≡ map (with_keys C R) authorities)
        × (validators C g.staking.stakers ≡ accounts_of C (session_validators C g))
        × (g.staking.invulnerables ≡ accounts_of C (session_validators C g))
        × (g.staking.validator_count ≡ length g.session_keys)
        × (g.staking.minimum_validator_count ≡ length g.session_keys)
  session_validators_lem small =
      let (ss, one, e) =
        genesis_parts C R sudo_key accounts authorities nominators chain_id rng rng' g built in
      let names : accounts_of C (session_validators C g) ≡ stashes C R authorities =
        ap (λ x. accounts_of C (session_validators C x)) e
        ∙ ap (accounts_of C) (key_entries C R authorities)
        ∙ with_keys-stashes C R authorities in
      let entries : length g.session_keys ≡ length authorities =
        ap (λ (x : GenesisState C). length x.session_keys) e
        ∙ length-map (key_entry C R) authorities in
      (
        ap (session_validators C) e ∙ key_entries C R authorities,
        ap (λ (x : GenesisState C). validators C x.staking.stakers) e
            ∙ validators-stakers C R authorities nominators rng rng' ss one
            ∙ sym names,
        ap (λ (x : GenesisState C). x.staking.invulnerables) e ∙ sym names,
        omega (arith, entries, ap (λ (x : GenesisState C). x.staking.validator_count) e),
        omega (arith, entries, ap (λ (x : GenesisState C). x.staking.minimum_validator_count) e),
      )
