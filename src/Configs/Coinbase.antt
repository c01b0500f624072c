-- ===== src/Configs/Coinbase.antt =====
-- Who may use the EVM address of a block's author: FindAuthorTruncated of runtime/src/configs/mod.rs
-- beside the origins that the same file gives the EVM.
use text.Mathlib.Text.{◌==◌ as str_eq}
use testchain.Base.{
  ℕ, ◌≡◌, ◌↔◌, refl, ap, sym, ◌∙◌, Bool, true, Option, none, some, List, get_elem?, take, drop,
  if◌then◌else◌,
}
use testchain.Configs.Settings.{Setting, named, lookup}
use testchain.Configs.Settings.Virtual.{evm_settings}
use testchain.Configs.Author.{Authors, IsSized, find_author, find_author_lem}

-- The accounts that sign, with their bytes, and `EnsureAddressTruncated`.
pub record Signers (A : Authors) : Type 1 where
  pub Account : Type 0
  pub account_bytes : Account → List ℕ
  pub ensure_address_truncated : A.H160 → Account → Bool

module _ (A : Authors) (K : Signers A) where
  abbrev origin_of : Option Setting → Option (A.H160 → K.Account → Bool)
  origin_of (some (named n)) =
      if str_eq n "EnsureAddressTruncated" then some K.ensure_address_truncated else none
  origin_of s = none

  -- `CallOrigin` and `WithdrawOrigin` of the EVM.
  unfoldable pub call_origin : Option (A.H160 → K.Account → Bool)
  call_origin = origin_of (lookup "CallOrigin" evm_settings)

  unfoldable pub withdraw_origin : Option (A.H160 → K.Account → Bool)
  withdraw_origin = origin_of (lookup "WithdrawOrigin" evm_settings)

  -- The documented behaviour: a signed account may use the address of its first 20 bytes and no
  -- other, and an address is made of one slice only.
  pub record IsTruncated : Type 0 where
    pub ensures :
        (address : A.H160) (account : K.Account)
        → (K.ensure_address_truncated address account ≡ true)
          ↔ (A.from_slice (take 20 (K.account_bytes account)) ≡ some address)
    pub one_slice :
        (xs ys : List ℕ) (address : A.H160)
        → A.from_slice xs ≡ some address
        → A.from_slice ys ≡ some address
        → xs ≡ ys

  -- The address that the EVM has for the author of a block belongs to the author's account only by
  -- accident: an account with the bytes of the author's key may call from it and withdraw from it
  -- exactly if the bytes 4 to 23 of the key are its bytes 0 to 19.
  pub coinbase_lem :
      (I : IsTruncated) (S : IsSized A) (digests : A.Digests) (i : ℕ) (public : A.Public)
      → A.find_index digests ≡ some i
      → get_elem? A.authorities i ≡ some public
      → (account : K.Account) → K.account_bytes account ≡ A.to_raw_vec public
      → (address : A.H160) × (find_author A digests ≡ some (some address))
        × ((check : A.H160 → K.Account → Bool) × (call_origin ≡ some check)
            × (withdraw_origin ≡ some check)
            × ((check address account ≡ true)
                ↔ (take 20 (drop 4 (A.to_raw_vec public)) ≡ take 20 (A.to_raw_vec public))))
  unfolding call_origin withdraw_origin
  coinbase_lem I S digests i public found at account same =
      let (address, made, author) = find_author_lem A S digests i public found at in
      let raw = A.to_raw_vec public in
      let front = ap (λ bytes. A.from_slice (take 20 bytes)) same in
      (
        address,
        author,
        (
          K.ensure_address_truncated,
          refl,
          refl,
          (
            λ h.
                I.one_slice (take 20 (drop 4 raw)) (take 20 raw) address made
                  (sym front ∙ (I.ensures address account).0 h),
            λ h. (I.ensures address account).1 (front ∙ ap A.from_slice (sym h) ∙ made),
          ),
        ),
      )
