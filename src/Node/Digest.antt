-- ===== src/Node/Digest.antt =====
-- node/src/rpc/consensus_data_provider.rs: the digest of a pending block, and who counts as its author.
use testchain.Base.{
  ◌≡◌, refl, sym, ap, ◌∙◌, ℕ, Option, none, some, List, [], ◌∷◌, get_elem?, take, drop, arith,
}
use testchain.Base.Result.{Result, ok, err, ◌>>=◌}
use testchain.Configs.Author.{Authors, IsSized, find_author, find_author_lem}

-- `enum Error`
pub data Error : Type 0 where
  missing_inherent : Error

-- Inherent data with `babe_inherent_data`, `sp_inherents::Error::Application`, and the digest item of
-- a claim.
pub record Inherent : Type 1 where
  pub InherentData : Type 0
  pub Header : Type 0
  pub Slot : Type 0
  pub InherentError : Type 0
  pub DigestItem : Type 0
  pub babe_inherent_data : InherentData → Result InherentError (Option Slot)
  pub application : Error → InherentError
  -- `babe_pre_digest` of a `SecondaryPlainPreDigest`, with its slot and its authority index.
  pub secondary_plain : Slot → ℕ → DigestItem

module _ (I : Inherent) where
  open I use {
    InherentData, Header, Slot, InherentError, DigestItem, babe_inherent_data, application,
    secondary_plain,
  }

  -- `ok_or`
  abbrev ok_or : Option Slot → InherentError → Result InherentError Slot
  ok_or none e = err e
  ok_or (some slot) e = ok slot

  -- `create_digest`, with the logs of the digest.
  unfoldable pub create_digest : Header → InherentData → Result InherentError (List DigestItem)
  create_digest parent inherents = do
    found ← babe_inherent_data inherents
    slot ← ok_or found (application missing_inherent)
    ok (secondary_plain slot 0 ∷ [])

  create_digest-eq-ok :
      (parent : Header) (inherents : InherentData) (logs : List DigestItem)
      (r : Result InherentError (Option Slot))
      → babe_inherent_data inherents ≡ r
      → create_digest parent inherents ≡ ok logs
      → (slot : Slot) × (r ≡ ok (some slot)) × ((secondary_plain slot 0 ∷ []) ≡ logs)
  unfolding create_digest
  create_digest-eq-ok parent inherents logs (err e) found h = ground (arith, found, h)
  create_digest-eq-ok parent inherents logs (ok none) found h = ground (arith, found, h)
  create_digest-eq-ok parent inherents logs (ok (some slot)) found h = (slot, refl, cc (found, h))

  module _ (A : Authors) (digests : List DigestItem → A.Digests) where
    -- The documented behaviour of BABE's `FindAuthor`: it reads the claim among the digests.
    pub record IsBabe : Type 0 where
      pub find_index-plain :
          (slot : Slot) (i : ℕ) → A.find_index (digests (secondary_plain slot i ∷ [])) ≡ some i

    -- A digest is made only where the inherent data has a slot. A pending block with that digest
    -- has the first authority as its author: its Ethereum address is made of the bytes 4 to 23 of
    -- that authority's key.
    pub find_author-create_digest :
        IsBabe
        → IsSized A
        → (public : A.Public) → get_elem? A.authorities 0 ≡ some public
        → (parent : Header) (inherents : InherentData) (logs : List DigestItem)
        → create_digest parent inherents ≡ ok logs
        → (slot : Slot) × (babe_inherent_data inherents ≡ ok (some slot))
          × (address : A.H160) × (A.from_slice (take 20 (drop 4 (A.to_raw_vec public)))
              ≡ some address)
          × (find_author A (digests logs) ≡ some (some address))
    find_author-create_digest B S public first parent inherents logs h =
        let (slot, found, made) = create_digest-eq-ok parent inherents logs _ refl h in
        let (address, e, f) =
          find_author_lem A S (digests (secondary_plain slot 0 ∷ [])) 0 public
            (B.find_index-plain slot 0) first in
        (slot, found, address, e, ap (λ l. find_author A (digests l)) (sym made) ∙ f)
