-- ===== src/Genesis/Stakers.antt =====
-- The stakers of `testnet_genesis` (node/src/chain_spec.rs, lines 160 to 178): every authority, and
-- every nominator with a random choice of authorities.
use testchain.Base.{
  ℕ, ◌*◌, ◌/◌, ◌%◌, Option, none, some, List, [], ◌∷◌, ◌++◌, map, length, min, ◌==◌, if◌then◌else◌,
}
use testchain.Base.OptionMonad.{◌>>=◌}
use testchain.Constants.{dollars}
use testchain.Genesis.Keys.{Crypto, Authority}

-- `const ENDOWMENT` and `const STASH`
abbrev pub endowment : ℕ
endowment = 100_000_000 * dollars

abbrev pub stash_balance : ℕ
stash_balance = endowment / 1000

-- `MaxNominations` of runtime/src/configs/mod.rs: the limit of `NposSolution16`.
abbrev pub max_nominations : ℕ
max_nominations = 16

-- The random number generator: `rng.gen::<usize>()` and `choose_multiple`, which change its state.
pub record Rng (A : Type 0) : Type 1 where
  pub State : Type 0
  pub gen : State → ℕ × State
  pub choose_multiple : List A → ℕ → State → List A × State

module _ (C : Crypto) where
  open C use {AccountId}

  -- `StakerStatus`, of which the source makes these two.
  pub data StakerStatus : Type 0 where
    validator : StakerStatus
    nominator : List AccountId → StakerStatus

  -- The tuples of the field `stakers`.
  pub record Staker : Type 0 where
    pub stash : AccountId
    pub controller : AccountId
    pub balance : ℕ
    pub status : StakerStatus

module _ (C : Crypto) (R : Rng (Authority C)) where
  open C use {AccountId}
  open R use {State, gen, choose_multiple}

  -- The closure over the initial authorities.
  abbrev pub validator_entry : Authority C → Staker C
  validator_entry x = record {
    stash = x.stash;
    controller = x.controller;
    balance = stash_balance;
    status = validator;
  }

  -- The stashes of the authorities.
  abbrev pub stashes : List (Authority C) → List AccountId
  stashes = map (λ (x : Authority C). x.stash)

  -- `limit`
  abbrev pub nomination_limit : List (Authority C) → ℕ
  nomination_limit authorities = min max_nominations (length authorities)

  -- The body of the closure, once `count` is known.
  abbrev pub nominate : List (Authority C) → AccountId → ℕ → State → Staker C × State
  nominate authorities x count rng =
      let (chosen, rng') = choose_multiple authorities count rng in
      (
        record {
          stash = x;
          controller = x;
          balance = stash_balance;
          status = nominator (stashes chosen);
        },
        rng',
      )

  -- The closure over the initial nominators. `%` panics where the limit is 0: `none`.
  unfoldable pub nominator_entry :
      List (Authority C) → AccountId → State → Option (Staker C × State)
  nominator_entry authorities x rng =
      let limit = nomination_limit authorities in
      let (draw, rng') = gen rng in
      if limit == 0 then none else some (nominate authorities x (draw % limit) rng')

  unfoldable pub nominator_entries :
      List (Authority C) → List AccountId → State → Option (List (Staker C) × State)
  nominator_entries authorities [] rng = some ([], rng)
  nominator_entries authorities (x ∷ xs) rng = do
    (entry, rng') ← nominator_entry authorities x rng
    (rest, rng'') ← nominator_entries authorities xs rng'
    some (entry ∷ rest, rng'')

  -- `stakers`
  unfoldable pub stakers :
      List (Authority C) → List AccountId → State → Option (List (Staker C) × State)
  stakers authorities nominators rng = do
    (rest, rng') ← nominator_entries authorities nominators rng
    some (map validator_entry authorities ++ rest, rng')
