-- ===== src/Pallets.antt =====
-- runtime/src/lib.rs: the pallets that `mod runtime` composes, in the order of their declaration,
-- and the indices by which calls, events and errors are encoded.
pub mod Hooks
pub mod Authoring
use testchain.Base.{
  ℕ, ◌≡◌, refl, ap, sym, ◌∙◌, Option, none, some, List, [], ◌∷◌, ◌==◌, ==_iff, if◌then◌else◌, ◌↔◌,
  true, false, Bool,
}
use mathlib.Core.Option.{some-injective}

pub data Pallet : Type 0 where
  system timestamp grandpa balances transaction_payment sudo template_module evm evm_chain_id :
      Pallet
  ethereum dynamic_fee base_fee babe treasury authorship utility offences im_online : Pallet
  election_provider_multi_phase staking fast_unstake session democracy council : Pallet
  technical_committee elections technical_membership voter_list historical scheduler preimage :
      Pallet
  nomination_pools randomness_collective_flip contracts : Pallet

-- `pallet_index`
unfoldable pub pallet_index : Pallet → ℕ
pallet_index system = 0
pallet_index timestamp = 1
pallet_index grandpa = 3
pallet_index balances = 4
pallet_index transaction_payment = 5
pallet_index sudo = 6
pallet_index template_module = 7
pallet_index evm = 8
pallet_index evm_chain_id = 9
pallet_index ethereum = 10
pallet_index dynamic_fee = 11
pallet_index base_fee = 12
pallet_index babe = 13
pallet_index treasury = 14
pallet_index authorship = 15
pallet_index utility = 16
pallet_index offences = 17
pallet_index im_online = 18
pallet_index election_provider_multi_phase = 19
pallet_index staking = 20
pallet_index fast_unstake = 21
pallet_index session = 22
pallet_index democracy = 23
pallet_index council = 24
pallet_index technical_committee = 25
pallet_index elections = 26
pallet_index technical_membership = 27
pallet_index voter_list = 28
pallet_index historical = 29
pallet_index scheduler = 30
pallet_index preimage = 31
pallet_index nomination_pools = 32
pallet_index randomness_collective_flip = 33
pallet_index contracts = 34

-- The pallets in the order of declaration.
abbrev pub all_pallets : List Pallet
all_pallets =
    system ∷ timestamp ∷ grandpa ∷ balances ∷ transaction_payment ∷ sudo ∷ template_module ∷ evm
    ∷ evm_chain_id ∷ ethereum ∷ dynamic_fee ∷ base_fee ∷ babe ∷ treasury ∷ authorship ∷ utility
    ∷ offences ∷ im_online ∷ election_provider_multi_phase ∷ staking ∷ fast_unstake ∷ session
    ∷ democracy ∷ council ∷ technical_committee ∷ elections ∷ technical_membership ∷ voter_list
    ∷ historical ∷ scheduler ∷ preimage ∷ nomination_pools ∷ randomness_collective_flip ∷ contracts
    ∷ []

abbrev find_index : List Pallet → ℕ → Option Pallet
find_index [] i = none
find_index (p ∷ ps) i = let rest = find_index ps i in if pallet_index p == i then some p else rest

-- The pallet that the first byte of an encoded call names.
unfoldable pub pallet_at : ℕ → Option Pallet
pallet_at i = find_index all_pallets i

found_step :
    (q p : Pallet) (rest : Option Pallet) (i : ℕ) (b : Bool)
    → (pallet_index q == i) ≡ b
    → (rest ≡ some p → pallet_index p ≡ i)
    → (if b then some q else rest) ≡ some p
    → pallet_index p ≡ i
found_step q p rest i true e k h =
    sym (ap pallet_index (some-injective q p h)) ∙ (==_iff (pallet_index q) i).0 e
found_step q p rest i false e k h = k h

found : (ps : List Pallet) (i : ℕ) (p : Pallet) → find_index ps i ≡ some p → pallet_index p ≡ i
found [] i p h = absurd (cc)
found (q ∷ ps) i p h =
    found_step q p (find_index ps i) i (pallet_index q == i) refl (found ps i p) h

round_trip : (p : Pallet) → pallet_at (pallet_index p) ≡ some p
unfolding pallet_index pallet_at
round_trip system = refl
round_trip timestamp = refl
round_trip grandpa = refl
round_trip balances = refl
round_trip transaction_payment = refl
round_trip sudo = refl
round_trip template_module = refl
round_trip evm = refl
round_trip evm_chain_id = refl
round_trip ethereum = refl
round_trip dynamic_fee = refl
round_trip base_fee = refl
round_trip babe = refl
round_trip treasury = refl
round_trip authorship = refl
round_trip utility = refl
round_trip offences = refl
round_trip im_online = refl
round_trip election_provider_multi_phase = refl
round_trip staking = refl
round_trip fast_unstake = refl
round_trip session = refl
round_trip democracy = refl
round_trip council = refl
round_trip technical_committee = refl
round_trip elections = refl
round_trip technical_membership = refl
round_trip voter_list = refl
round_trip historical = refl
round_trip scheduler = refl
round_trip preimage = refl
round_trip nomination_pools = refl
round_trip randomness_collective_flip = refl
round_trip contracts = refl

pub pallet_index-injective : (p q : Pallet) → pallet_index p ≡ pallet_index q → p ≡ q
pallet_index-injective p q e =
    some-injective p q (sym (round_trip p) ∙ ap pallet_at e ∙ round_trip q)

-- An index names a pallet exactly when it is that pallet's: no two pallets share one, so an
-- encoded call can go to one pallet only.
pallet_at_iff : (i : ℕ) (p : Pallet) → (pallet_at i ≡ some p) ↔ (pallet_index p ≡ i)
unfolding pallet_at
pallet_at_iff i p = (found all_pallets i p, λ e. ap pallet_at (sym e) ∙ round_trip p)
