-- ===== src/Genesis/Accounts.antt =====
-- Who holds what in the genesis state of node/src/chain_spec.rs: endowed accounts, stakers and
-- members of the council.

use mathlib.Core.Logic.{◌∨₁◌}
use native.Mathlib.Nat.{ℕ_set}
use mathlib.Core.Logic.Or
use mathlib.Core.Path.{subst}
use mathlib.Core.List.{Mem, Nodup, mem-cons, not-mem-nil, mem-cons_self, mem-cons_of_mem}
use testchain.Base.{ℕ, some, List, [], ◌∷◌, ◌++◌, ◌≡◌, ◌↔◌, refl, ap, map, All, arith}
use testchain.Base.OptionMonad.{>>=-eq-some}
use testchain.Genesis.Keys.{Crypto, Authority}
use testchain.Genesis.Endow.{endow-Nodup, mem-endow}
use testchain.Genesis.Stakers.{Rng, Staker, stakers, stashes, endowment}
use testchain.Genesis.State.{GenesisState, testnet_genesis, state_of, endowed}

module _ (C : Crypto) (R : Rng (Authority C)) where
  open C use {AccountId, eq}
  open R use {State}

  pub genesis_parts :
      (sudo_key : AccountId) (accounts : List AccountId) (authorities : List (Authority C))
      (nominators : List AccountId) (chain_id : ℕ) (rng rng' : State) (g : GenesisState C)
      → testnet_genesis C R sudo_key accounts authorities nominators chain_id rng ≡ some (g, rng')
      → (ss : List (Staker C)) × (stakers C R authorities nominators rng ≡ some (ss, rng'))
        × (g
            ≡ state_of C R sudo_key
                (endowed C R accounts authorities nominators)
                authorities
                ss
                chain_id)
  unfolding testnet_genesis
  genesis_parts sudo_key accounts authorities nominators chain_id rng rng' g h =
      let ((ss, rng₁), one, h₁) = >>=-eq-some (stakers C R authorities nominators rng) _ h in
      (ss, ground arith, ground arith)

  -- The accounts with a genesis balance.
  abbrev pub holders : GenesisState C → List AccountId
  holders g = map (λ (entry : AccountId × ℕ). entry.0) g.balances

pub map_pair :
    {A : Type 0} (n : ℕ) (xs : List A) → map (λ (e : A × ℕ). e.0) (map (λ a. (a, n)) xs) ≡ xs
map_pair n [] = refl
map_pair n (x ∷ xs) = ap (λ (l : List _). x ∷ l) (map_pair n xs)

pub All-pair :
    {A : Type 0} (n : ℕ) (xs : List A) → All (λ (e : A × ℕ). e.1 ≡ n) (map (λ a. (a, n)) xs)
All-pair n [] = tt
All-pair n (x ∷ xs) = (refl, All-pair n xs)

pair_value :
    {A : Type 0} (n : ℕ) (xs : List A) (a : A) (held : ℕ)
    → Mem {A = A × ℕ} (a, held) (map (λ x. (x, n)) xs)
    → held ≡ n
pair_value n [] a held m = absurd (not-mem-nil m)
pair_value n (x ∷ xs) a held m =
    Or.elim (ℕ_set held n) (mem-cons.0 m) (λ e. ap (λ p. p.1) e)
      (λ later. pair_value n xs a held later)

pub All-mem : {A : Type 0} (P : A → Type 0) (xs : List A) → ((a : A) → Mem a xs → P a) → All P xs
All-mem P [] h = tt
All-mem P (x ∷ xs) h = (h x mem-cons_self, All-mem P xs (λ a m. h a (mem-cons_of_mem x m)))

module _ (C : Crypto) (R : Rng (Authority C)) (sudo_key : C.AccountId) (accounts : List C.AccountId)
    (authorities : List (Authority C)) (nominators : List C.AccountId) (chain_id : ℕ)
    (rng rng' : R.State) (g : GenesisState C)
    (built : testnet_genesis C R sudo_key accounts authorities nominators chain_id rng
      ≡ some (g, rng')) where
  pub holders-eq : holders C R g ≡ endowed C R accounts authorities nominators
  holders-eq =
      let (ss, _, e) =
        genesis_parts C R sudo_key accounts authorities nominators chain_id rng rng' g built in
      rw e (map_pair endowment (endowed C R accounts authorities nominators))

  -- In a genesis state that is built, the accounts with a balance are the given accounts, the
  -- stashes of the authorities and the nominators, and no others. Each has the balance
  -- `ENDOWMENT`.
  pub holders_lem :
      (a : C.AccountId)
      → (Mem a (holders C R g) ↔ (Mem a accounts ∨₁ Mem a (stashes C R authorities ++ nominators)))
        × All (λ (e : C.AccountId × ℕ). e.1 ≡ endowment) g.balances
  holders_lem a =
      let (ss, _, e) =
        genesis_parts C R sudo_key accounts authorities nominators chain_id rng rng' g built in
      (
        rw holders-eq (mem-endow C.eq a accounts (stashes C R authorities ++ nominators)),
        rw e (All-pair endowment (endowed C R accounts authorities nominators)),
      )

  -- Whoever has a balance has `ENDOWMENT`.
  pub held_lem : (a : C.AccountId) (held : ℕ) → Mem (a, held) g.balances → held ≡ endowment
  held_lem a held m =
      let (ss, _, e) =
        genesis_parts C R sudo_key accounts authorities nominators chain_id rng rng' g built in
      pair_value endowment (endowed C R accounts authorities nominators) a held
        (subst (Mem (a, held)) (ap (λ (x : GenesisState C). x.balances) e) m)

  -- No account has two entries among the balances of a genesis state, if the given accounts name
  -- none twice: accounts that are also stashes or nominators are endowed once.
  pub holders-Nodup : Nodup accounts → Nodup (holders C R g)
  holders-Nodup h =
      rw holders-eq (endow-Nodup C.eq accounts (stashes C R authorities ++ nominators) h)
