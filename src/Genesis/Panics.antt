-- ===== src/Genesis/Panics.antt =====
-- When `testnet_genesis` (node/src/chain_spec.rs) panics.
use testchain.Base.{ℕ, ◌%◌, none, some, List, [], ◌∷◌, ◌≡◌, ◌≢◌, ◌↔◌, refl, arith}
use testchain.Genesis.Keys.{Crypto, Authority}
use testchain.Genesis.Stakers.{
  Rng, stakers, nominator_entry, nominator_entries, nomination_limit, nominate,
}
use testchain.Genesis.State.{testnet_genesis}

module _ (C : Crypto) (R : Rng (Authority C)) where
  open C use {AccountId}
  open R use {State, gen}

  entry_gives :
      (a : Authority C) (authorities : List (Authority C)) (x : AccountId) (rng : State)
      → nominator_entry C R (a ∷ authorities) x rng
        ≡ some (
            nominate C R
              (a ∷ authorities)
              x
              ((gen rng).0 % nomination_limit C R (a ∷ authorities))
              (gen rng).1)
  unfolding nominator_entry
  entry_gives a authorities x rng = ground arith

  entries_give :
      (a : Authority C) (authorities : List (Authority C)) (xs : List AccountId) (rng : State)
      → nominator_entries C R (a ∷ authorities) xs rng ≢ none
  unfolding nominator_entries
  entries_give a authorities [] rng h = cc
  entries_give a authorities (x ∷ xs) rng h =
      let rng' =
        (nominate C R (a ∷ authorities) x ((gen rng).0 % nomination_limit C R (a ∷ authorities))
          (gen rng).1).1 in
      ground (arith, entry_gives a authorities x rng, entries_give a authorities xs rng')

  entry_none : (x : AccountId) (rng : State) → nominator_entry C R [] x rng ≡ none
  unfolding nominator_entry
  entry_none x rng = ground arith

  genesis_gives :
      (sudo_key : AccountId) (accounts : List AccountId) (a : Authority C)
      (authorities : List (Authority C)) (nominators : List AccountId) (chain_id : ℕ) (rng : State)
      → testnet_genesis C R sudo_key accounts (a ∷ authorities) nominators chain_id rng ≢ none
  unfolding testnet_genesis stakers
  genesis_gives sudo_key accounts a authorities nominators chain_id rng h =
      entries_give a authorities nominators rng (ground arith)

  -- The genesis state is built unless there are nominators and no authority: then, and only then,
  -- the draw of the number of nominations divides by zero.
  pub testnet_genesis-none_iff :
      (sudo_key : AccountId) (accounts : List AccountId) (authorities : List (Authority C))
      (nominators : List AccountId) (chain_id : ℕ) (rng : State)
      → (testnet_genesis C R sudo_key accounts authorities nominators chain_id rng ≡ none)
        ↔ ((authorities ≡ []) × (nominators ≢ []))
  unfolding testnet_genesis stakers nominator_entries
  testnet_genesis-none_iff sudo_key accounts authorities [] chain_id rng =
      (λ h. cc, λ h. absurd (h.1 refl))
  testnet_genesis-none_iff sudo_key accounts [] (x ∷ xs) chain_id rng =
      (λ h. (refl, λ e. cc), λ h. rw (entry_none x rng))
  testnet_genesis-none_iff sudo_key accounts (a ∷ authorities) (x ∷ xs) chain_id rng =
      (λ h. absurd (genesis_gives sudo_key accounts a authorities (x ∷ xs) chain_id rng h), λ h. cc)
