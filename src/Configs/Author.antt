-- ===== src/Configs/Author.antt =====
-- `FindAuthorTruncated::find_author` of runtime/src/configs/mod.rs. The outer `Option` is the
-- panic of an index or a slice out of range.
use testchain.Base.{
  ℕ, ◌-◌, ◌≡◌, Option, none, some, List, get_elem?, take, drop, length, if◌then◌else◌, leb, arith,
  length-take, length-drop,
}
use testchain.Base.OptionMonad.{◌>>=◌}

-- The BABE authorities and their key bytes, and the 20 bytes of an `H160`.
pub record Authors : Type 1 where
  pub Digests : Type 0
  pub Public : Type 0
  pub H160 : Type 0
  pub authorities : List Public
  pub to_raw_vec : Public → List ℕ
  -- `H160::from_slice`, which panics on a slice of another length than 20.
  pub from_slice : List ℕ → Option H160
  -- `F::find_author`: the index of the author of a block.
  pub find_index : Digests → Option ℕ

-- `&bytes[from..to]`
abbrev slice : ℕ → ℕ → List ℕ → Option (List ℕ)
slice from to bytes =
    if leb to (length bytes) then some (take (to - from) (drop from bytes)) else none

module _ (A : Authors) where
  abbrev author_at : Option ℕ → Option (Option A.H160)
  author_at none = some none
  author_at (some author_index) = do
    public ← get_elem? A.authorities author_index
    bytes ← slice 4 24 (A.to_raw_vec public)
    address ← A.from_slice bytes
    some (some address)

  -- `find_author`
  unfoldable pub find_author : A.Digests → Option (Option A.H160)
  find_author digests = author_at (A.find_index digests)

  -- The documented behaviour of the keys: 32 bytes each, and `from_slice` takes 20.
  pub record IsSized : Type 0 where
    pub raw_length : (public : A.Public) → length (A.to_raw_vec public) ≡ 32
    pub slice_length :
        (bytes : List ℕ)
        → length bytes ≡ 20
        → (address : A.H160) × (A.from_slice bytes ≡ some address)

  -- A block whose author stands among the authorities has the address made of the bytes 4 to 23 of
  -- the author's key: the search does not panic.
  pub find_author_lem :
      IsSized
      → (digests : A.Digests) (i : ℕ) (public : A.Public) → A.find_index digests ≡ some i
      → get_elem? A.authorities i ≡ some public
      → (address : A.H160) × (A.from_slice (take 20 (drop 4 (A.to_raw_vec public))) ≡ some address)
        × (find_author digests ≡ some (some address))
  unfolding find_author
  find_author_lem S digests i public found at =
      let bytes = take 20 (drop 4 (A.to_raw_vec public)) in
      let sized : length bytes ≡ 20 = omega (
        arith,
        length-take 20 (drop 4 (A.to_raw_vec public)),
        length-drop 4 (A.to_raw_vec public),
        S.raw_length public,
      ) in
      let (address, e) = S.slice_length bytes sized in
      (address, e, simp (found, at, S.raw_length public, e))
