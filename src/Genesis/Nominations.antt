-- ===== src/Genesis/Nominations.antt =====
-- The stakers that `testnet_genesis` (node/src/chain_spec.rs) computes: who they are, what they
-- nominate, and when the computation panics.
use mathlib.Core.List.{Subset, map-subset, map-append}
use testchain.Base.{
  ℕ, ◌≤◌, ◌<◌, ◌%◌, some, List, [], ◌∷◌, ◌++◌, ◌≡◌, refl, ◌∙◌, map, length, length-map, All,
  All-append, arith,
}
use testchain.Base.OptionMonad.{>>=-eq-some}
use testchain.Genesis.Keys.{Crypto, Authority}
use testchain.Genesis.Stakers.{
  Rng, Staker, StakerStatus, validator, nominator, stakers, stashes, stash_balance,
  nomination_limit, nominator_entry, nominator_entries, nominate, validator_entry,
}

module _ (C : Crypto) (R : Rng (Authority C)) where
  open C use {AccountId}
  open R use {State, gen, choose_multiple}

  -- `choose_multiple` is documented to return distinct elements of the slice, `amount` of them or,
  -- where the slice is shorter, all: at most `amount`, and none but the slice's own.
  pub record IsChooser : Type 0 where
    pub length-choose_multiple :
        (xs : List (Authority C)) (amount : ℕ) (rng : State)
        → length (choose_multiple xs amount rng).0 ≤ amount
    pub Subset-choose_multiple :
        (xs : List (Authority C)) (amount : ℕ) (rng : State)
        → Subset (choose_multiple xs amount rng).0 xs

module _ (C : Crypto) (R : Rng (Authority C)) where
  open C use {AccountId}
  open R use {State, gen, choose_multiple}

  abbrev pub staker_stashes : List (Staker C) → List AccountId
  staker_stashes = map (λ (s : Staker C). s.stash)

  -- What holds of one staker: the balance at stake, and for a nominator its choice.
  abbrev pub IsSoundStatus : List (Authority C) → StakerStatus C → Type 0
  IsSoundStatus authorities validator = Unit
  IsSoundStatus authorities (nominator targets) =
      (length targets < nomination_limit C R authorities) × Subset targets (stashes C R authorities)

  pub record IsSound (authorities : List (Authority C)) (s : Staker C) : Type 0 where
    pub stake : s.balance ≡ stash_balance
    pub sound_status : IsSoundStatus authorities s.status

  entry_stash :
      (authorities : List (Authority C)) (x : AccountId) (rng rng' : State) (s : Staker C)
      → nominator_entry C R authorities x rng ≡ some (s, rng')
      → s.stash ≡ x
  unfolding nominator_entry
  entry_stash authorities x rng rng' s h = ground arith

  pub entry_value :
      (authorities : List (Authority C)) (x : AccountId) (rng rng' : State) (s : Staker C)
      → nominator_entry C R authorities x rng ≡ some (s, rng')
      → (count : ℕ) × (rng₀ : State) × (count < nomination_limit C R authorities)
        × (s ≡ (nominate C R authorities x count rng₀).0)
  unfolding nominator_entry
  entry_value authorities x rng rng' s h =
      ((gen rng).0 % nomination_limit C R authorities, (gen rng).1, ground arith, ground arith)

  entry-IsSound :
      IsChooser C R
      → (authorities : List (Authority C)) (x : AccountId) (rng rng' : State) (s : Staker C)
      → nominator_entry C R authorities x rng ≡ some (s, rng')
      → IsSound authorities s
  entry-IsSound chooser authorities x rng rng' s h =
      let (count, rng₀, lt, e) = entry_value authorities x rng rng' s h in
      rw e (record {
        stake = refl;
        sound_status = (
          omega (
            arith,
            chooser.length-choose_multiple authorities count rng₀,
            length-map (λ (a : Authority C). a.stash) (choose_multiple authorities count rng₀).0,
          ),
          map-subset (λ (a : Authority C). a.stash)
              (chooser.Subset-choose_multiple authorities count rng₀),
        );
      })

  pub entries_All :
      (P : Staker C → Type 0) (authorities : List (Authority C))
      → ((x : AccountId) (rng rng' : State) (s : Staker C)
          → nominator_entry C R authorities x rng ≡ some (s, rng')
          → P s)
      → (xs : List AccountId) (rng rng' : State) (ss : List (Staker C))
      → nominator_entries C R authorities xs rng ≡ some (ss, rng')
      → All P ss × (staker_stashes ss ≡ xs)
  unfolding nominator_entries
  entries_All P authorities each [] rng rng' ss h =
      let e : ss ≡ [] = ground arith in rw e (tt, refl)
  entries_All P authorities each (x ∷ xs) rng rng' ss h =
      let ((s, rng₁), one, h₁) = >>=-eq-some (nominator_entry C R authorities x rng) _ h in
      let ((rest, rng₂), more, h₂) = >>=-eq-some (nominator_entries C R authorities xs rng₁) _ h₁ in
      let (all, names) = entries_All P authorities each xs rng₁ rng₂ rest more in
      let e : ss ≡ s ∷ rest = ground arith in
      rw e ((each x rng rng₁ s one, all), rw (entry_stash authorities x rng rng₁ s one, names))

  validators-IsSound :
      (authorities rest : List (Authority C))
      → All (IsSound authorities) (map (validator_entry C R) rest)
        × (staker_stashes (map (validator_entry C R) rest) ≡ stashes C R rest)
  validators-IsSound authorities [] = (tt, refl)
  validators-IsSound authorities (a ∷ rest) =
      let (all, names) = validators-IsSound authorities rest in
      ((record { stake = refl; sound_status = tt }, all), rw names)

  -- Where `choose_multiple` keeps its documented behaviour and the stakers of a genesis state are
  -- computed without a panic, they are the stashes of the authorities and then the nominators, in
  -- their order. Each stakes `STASH`, and a nominator nominates stashes of authorities only, fewer
  -- than `MaxNominations` and fewer than there are authorities.
  pub stakers-IsSound :
      IsChooser C R
      → (authorities : List (Authority C)) (nominators : List AccountId) (rng rng' : State)
        (ss : List (Staker C))
      → stakers C R authorities nominators rng ≡ some (ss, rng')
      → All (IsSound authorities) ss × (staker_stashes ss ≡ stashes C R authorities ++ nominators)
  unfolding stakers
  stakers-IsSound chooser authorities nominators rng rng' ss h =
      let ((rest, rng₁), one, h₁) =
        >>=-eq-some (nominator_entries C R authorities nominators rng) _ h in
      let (all, names) =
        entries_All (IsSound authorities) authorities (entry-IsSound chooser authorities) nominators
          rng rng₁ rest one in
      let (first, first_names) = validators-IsSound authorities authorities in
      let e : ss ≡ map (validator_entry C R) authorities ++ rest = ground arith in
      rw e (
        All-append (IsSound authorities) (map (validator_entry C R) authorities) rest first all,
        map-append (λ (s : Staker C). s.stash) (map (validator_entry C R) authorities) rest
            ∙ rw (first_names, names),
      )
