-- ===== src/Genesis/Bonds.antt =====
-- The bonds of the stakers of a genesis state of node/src/chain_spec.rs.
use mathlib.Core.Logic.Or
use mathlib.Core.List.{Mem, mem-map_of_mem}
use mathlib.Core.Path.{subst}
use testchain.Constants.{dollars}
use testchain.Base.{ℕ, ◌≤◌, some, List, [], ◌∷◌, ◌++◌, ◌≡◌, sym, ap, ◌∙◌, ◌*◌, All, arith}
use testchain.Genesis.Keys.{Crypto, Authority}
use testchain.Genesis.Stakers.{Rng, Staker, stashes}
use testchain.Genesis.State.{GenesisState, testnet_genesis}
use testchain.Genesis.Nominations.{IsChooser, IsSound, staker_stashes, stakers-IsSound}
use testchain.Genesis.Accounts.{genesis_parts, holders, holders_lem, held_lem, All-mem}

All-join :
    {A : Type 0} (P Q W : A → Type 0) (xs : List A)
    → ((a : A) → P a → Q a → W a)
    → All P xs
    → All Q xs
    → All W xs
All-join P Q W [] h p q = tt
All-join P Q W (x ∷ xs) h p q = (h x p.0 q.0, All-join P Q W xs h p.1 q.1)

module _ (C : Crypto) (R : Rng (Authority C)) where
  -- The bond of one staker against every balance that the state gives its stash, and against the amounts that the state itself demands.
  pub record IsBonded (g : GenesisState C) (s : Staker C) : Type 0 where
    pub is_holder : Mem s.stash (holders C R g)
    pub covered : (held : ℕ) → Mem (s.stash, held) g.balances → s.balance ≤ held
    pub validator_bond : g.staking.min_validator_bond ≤ s.balance
    pub nominator_bond : g.staking.min_nominator_bond ≤ s.balance

module _ (C : Crypto) (R : Rng (Authority C)) (sudo_key : C.AccountId) (accounts : List C.AccountId)
    (authorities : List (Authority C)) (nominators : List C.AccountId) (chain_id : ℕ)
    (rng rng' : R.State) (g : GenesisState C)
    (built : testnet_genesis C R sudo_key accounts authorities nominators chain_id rng
      ≡ some (g, rng')) where
  staker_holder :
      (a : C.AccountId) → Mem a (stashes C R authorities ++ nominators) → Mem a (holders C R g)
  staker_holder a m =
      (holders_lem C R sudo_key accounts authorities nominators chain_id rng rng' g built a).0.1
        (Or.inr m)

  -- Where `choose_multiple` keeps its documented behaviour, every staker of a genesis state that is
  -- built is an account with a balance that covers its bond, and the bond reaches the minimum that
  -- the state sets for validators and for nominators. The stakers are the stashes of the authorities
  -- and then the nominators.
  pub stakers-IsBonded :
      IsChooser C R
      → All (IsBonded C R g) g.staking.stakers
        × (staker_stashes C R g.staking.stakers ≡ stashes C R authorities ++ nominators)
  stakers-IsBonded chooser =
      let (ss, one, e) =
        genesis_parts C R sudo_key accounts authorities nominators chain_id rng rng' g built in
      let (sound, names) = stakers-IsSound C R chooser authorities nominators rng rng' ss one in
      let vb : g.staking.min_validator_bond ≡ 75_000 * dollars =
        ap (λ (x : GenesisState C). x.staking.min_validator_bond) e in
      let nb : g.staking.min_nominator_bond ≡ 10 * dollars =
        ap (λ (x : GenesisState C). x.staking.min_nominator_bond) e in
      let held_lem =
        held_lem C R sudo_key accounts authorities nominators chain_id rng rng' g built in
      let all : All (IsBonded C R g) ss =
        All-join (IsSound C R authorities) (λ s. Mem s.stash (holders C R g)) (IsBonded C R g) ss
          (λ s p m. record {
            is_holder = m;
            covered = λ held at. omega (arith, p.stake, held_lem s.stash held at);
            validator_bond = omega (arith, p.stake, vb);
            nominator_bond = omega (arith, p.stake, nb);
          })
          sound
          (All-mem (λ s. Mem s.stash (holders C R g)) ss
            (λ s m.
              staker_holder s.stash
                (subst (Mem s.stash) names (mem-map_of_mem (λ (t : Staker C). t.stash) m)))) in
      let same : g.staking.stakers ≡ ss = ap (λ (x : GenesisState C). x.staking.stakers) e in
      (subst (All (IsBonded C R g)) (sym same) all, ap (staker_stashes C R) same ∙ names)
