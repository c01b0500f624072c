-- ===== src/Examples/Runtime.antt =====
-- The runtime's configuration: transactions, authors, origins, bags, pallets and constants.
use testchain.Base.{◌*◌, ◌^◌, ◌<◌, ◌≤◌}
use testchain.Base.{
  ◌==◌, ==_iff, ◌&&◌, ap, sym, ◌∙◌, ℕ, ◌+◌, Bool, true, false, Option, some, List, [], ◌∷◌, ◌≡◌,
  ◌↔◌, refl, arith, replicate,
}
use testchain.Configs.Transactions.{
  Signing, period, SignedExtra, SignedPayload, SignaturePayload, create_transaction,
}
use testchain.Configs.Eras.{period_lem, expected_extra, create_transaction_iff}
use testchain.Configs.Author.{find_author, Authors, IsSized}
use testchain.Configs.Coinbase.{Signers, IsTruncated, call_origin, withdraw_origin, coinbase_lem}
use mathlib.Core.Option.{some-injective}
use testchain.VoterBags.Thresholds.{thresholds}
use testchain.VoterBags.Order.{IsBag, IsWide, IsBag-unique}

abbrev signing : Signing
signing = record {
  Call = ℕ;
  Public = ℕ;
  AccountId = ℕ;
  Signature = ℕ;
  Era = ℕ × ℕ;
  Additional = ℕ;
  mortal = λ period current. (period, current);
}

abbrev additional_signed : SignedExtra signing → Option ℕ
additional_signed extra = some 1

abbrev sign : SignedPayload signing → ℕ → Option ℕ
sign payload public = some (public + payload.call)

abbrev signed_call : ℕ × SignaturePayload signing
signed_call = (5, record { address = 3; signature = 12; extra = expected_extra signing 2 100 })

create_transaction_iff_example :
    (create_transaction signing additional_signed sign 5 7 3 2 100 ≡ some signed_call) ↔ (
      (additional : ℕ) × (signature : ℕ) × (additional_signed (expected_extra signing 2 100)
        ≡ some additional)
      × (sign (record { call = 5; extra = expected_extra signing 2 100; additional = additional }) 7
          ≡ some signature)
      × (signed_call ≡ (
        5,
        record { address = 3; signature = signature; extra = expected_extra signing 2 100 },
      )))
create_transaction_iff_example =
    create_transaction_iff signing additional_signed sign 5 7 3 2 100 signed_call

abbrev authors : Authors
authors = record {
  Digests = Option ℕ;
  Public = ℕ;
  H160 = List ℕ;
  authorities = 7 ∷ 8 ∷ [];
  to_raw_vec = λ public. public ∷ replicate 31 0;
  from_slice = λ bytes. some bytes;
  find_index = λ digests. digests;
}

authors-IsSized : IsSized authors
authors-IsSized = record { raw_length = λ public. refl; slice_length = λ bytes h. (bytes, refl) }

-- Keys and accounts are a byte and zeros.
abbrev same_bytes : List ℕ → List ℕ → Bool
same_bytes [] [] = true
same_bytes [] (y ∷ ys) = false
same_bytes (x ∷ xs) [] = false
same_bytes (x ∷ xs) (y ∷ ys) = x == y && same_bytes xs ys

same_bytes_iff : (xs ys : List ℕ) → (same_bytes xs ys ≡ true) ↔ (xs ≡ ys)
same_bytes_iff [] [] = (λ h. refl, λ h. refl)
same_bytes_iff [] (y ∷ ys) = (λ h. absurd (cc h), λ h. absurd (cc h))
same_bytes_iff (x ∷ xs) [] = (λ h. absurd (cc h), λ h. absurd (cc h))
same_bytes_iff (x ∷ xs) (y ∷ ys) = grind (arith, ==_iff x y, same_bytes_iff xs ys)

abbrev signers : Signers authors
signers = record {
  Account = ℕ;
  account_bytes = λ account. account ∷ replicate 31 0;
  ensure_address_truncated = λ address account. same_bytes (account ∷ replicate 19 0) address;
}

signers-IsTruncated : IsTruncated authors signers
signers-IsTruncated = record {
  ensures = λ address account.
      let both = same_bytes_iff (account ∷ replicate 19 0) address in
      (λ h. ap some (both.0 h), λ h. both.1 (some-injective _ _ h));
  one_slice = λ xs ys address h k. some-injective xs ys (h ∙ sym k);
}

coinbase_lem_example :
    (address : List ℕ) × (find_author authors (some 1) ≡ some (some address))
    × ((check : List ℕ → ℕ → Bool) × (call_origin authors signers ≡ some check)
        × (withdraw_origin authors signers ≡ some check)
        × ((check address 8 ≡ true) ↔ (replicate {A = ℕ} 20 0 ≡ 8 ∷ replicate 19 0)))
coinbase_lem_example =
    coinbase_lem authors signers signers-IsTruncated authors-IsSized (some 1) 1 8 refl refl 8 refl

IsBag-unique_example :
    (index : ℕ) × IsBag thresholds 5 index
    × ((other : ℕ) → IsBag thresholds 5 other → other ≡ index)
    × IsWide thresholds index
IsBag-unique_example = IsBag-unique 5 (omega arith)

period_lem_example : (j : ℕ) × (period 1024 ≡ 2 ^ j) × (2 ^ j < 1024) × (1024 ≤ 2 * 2 ^ j)
period_lem_example = period_lem 1024 (omega arith) (omega arith)
