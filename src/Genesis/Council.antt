-- ===== src/Genesis/Council.antt =====
-- The council and the technical committee of a genesis state of node/src/chain_spec.rs.
use mathlib.Core.Path.{subst}
use mathlib.Core.List.{Mem, mem-append_left}
use testchain.Base.{
  ℕ, ◌+◌, ◌*◌, ◌≤◌, ◌<◌, ◌/◌, some, List, ◌++◌, ◌≡◌, sym, ap, ◌∙◌, map, length, drop, length-take,
  take-append-drop, All, All-map, arith,
}
use testchain.Genesis.Keys.{Crypto, Authority}
use testchain.Genesis.Stakers.{Rng, stash_balance}
use testchain.Genesis.State.{GenesisState, testnet_genesis, endowed, members}
use testchain.Genesis.Accounts.{genesis_parts, holders, holders-eq, held_lem, map_pair, All-mem}

module _ (C : Crypto) (R : Rng (Authority C)) where
  -- The accounts of the council.
  abbrev pub council : GenesisState C → List C.AccountId
  council g = map (λ (e : C.AccountId × ℕ). e.0) g.elections_members

  -- A member with its stake: the member has a balance, and the stake is a thousandth of every balance
  -- that the state gives it, above 0.
  pub record IsCovered (g : GenesisState C) (e : C.AccountId × ℕ) : Type 0 where
    pub is_holder : Mem e.0 (holders C R g)
    pub positive : 0 < e.1
    pub covered : (held : ℕ) → Mem (e.0, held) g.balances → e.1 * 1000 ≡ held

module _ (C : Crypto) (R : Rng (Authority C)) (sudo_key : C.AccountId) (accounts : List C.AccountId)
    (authorities : List (Authority C)) (nominators : List C.AccountId) (chain_id : ℕ)
    (rng rng' : R.State) (g : GenesisState C)
    (built : testnet_genesis C R sudo_key accounts authorities nominators chain_id rng
      ≡ some (g, rng')) where
  -- The council of a genesis state is the technical committee: the first half of the accounts with a
  -- balance, rounded up. Each member has a balance, of which it stakes a thousandth.
  pub council_lem :
      (council C R g ≡ g.technical_committee_members)
      × ((rest : List C.AccountId) × (holders C R g ≡ council C R g ++ rest))
      × (length (holders C R g) ≤ 2 * length (council C R g))
      × (2 * length (council C R g) ≤ length (holders C R g) + 1)
      × All (IsCovered C R g) g.elections_members
  council_lem =
      let (ss, _, e) =
        genesis_parts C R sudo_key accounts authorities nominators chain_id rng rng' g built in
      let xs = endowed C R accounts authorities nominators in
      let hs = holders-eq C R sudo_key accounts authorities nominators chain_id rng rng' g built in
      let cs : council C R g ≡ members C R xs = rw e (map_pair stash_balance (members C R xs)) in
      let half = (length xs + 1) / 2 in
      let lh : length (holders C R g) ≡ length xs = ap length hs in
      let lc : length (council C R g) ≡ length (members C R xs) = ap length cs in
      let held_lem =
        held_lem C R sudo_key accounts authorities nominators chain_id rng rng' g built in
      let among : (m : C.AccountId) → Mem m (members C R xs) → Mem m (holders C R g) = λ m at.
        subst (Mem m) (take-append-drop half xs ∙ sym hs) (mem-append_left (drop half xs) at) in
      let covered : All (IsCovered C R g)
          (map (λ member. (member, stash_balance)) (members C R xs)) =
        All-map (IsCovered C R g) (λ member. (member, stash_balance)) (members C R xs)
          (All-mem _ (members C R xs) (λ m at. record {
            is_holder = among m at;
            positive = omega arith;
            covered = λ held has. omega (arith, held_lem m held has);
          })) in
      (
        cs ∙ sym (ap (λ (x : GenesisState C). x.technical_committee_members) e),
        (drop half xs, hs ∙ sym (take-append-drop half xs) ∙ ap (λ l. l ++ drop half xs) (sym cs)),
        omega (arith, lh, lc, length-take half xs),
        omega (arith, lh, lc, length-take half xs),
        subst (All (IsCovered C R g)) (sym (ap (λ (x : GenesisState C). x.elections_members) e))
            covered,
      )
