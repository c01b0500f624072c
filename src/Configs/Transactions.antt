-- ===== src/Configs/Transactions.antt =====
-- runtime/src/configs/mod.rs, lines 429 to 470: transactions that the runtime signs off chain.
use testchain.Base.{
  ℕ, zero, suc, ◌-◌, ◌*◌, ◌/◌, Bool, false, Option, none, some, leb, if◌then◌else◌, unwrap_or,
}
use testchain.Base.OptionMonad.{◌>>=◌}

-- `BlockHashCount`
abbrev pub block_hash_count : ℕ
block_hash_count = 2400

-- The least power of two among the next `f` that is not below `n`.
unfoldable pub power_search : ℕ → ℕ → ℕ → Option ℕ
power_search zero p n = none
power_search (suc f) p n = let rest = power_search f (2 * p) n in if leb n p then some p else rest

-- `checked_next_power_of_two` of `u32`, whose powers of two are 2^0 to 2^31.
unfoldable pub checked_next_power_of_two : ℕ → Option ℕ
checked_next_power_of_two n = power_search 32 1 n

abbrev halved : Option ℕ → Option ℕ
halved none = none
halved (some c) = some (c / 2)

-- `period`, for any value of `BlockHashCount`.
unfoldable pub period : ℕ → ℕ
period count = unwrap_or (halved (checked_next_power_of_two count)) 2

-- What the function calls: the block number, `Era::mortal`, `SignedPayload::new` with its failures,
-- the signature of the encoded payload, and `deconstruct`.
pub record Signing : Type 1 where
  pub Call : Type 0
  pub Public : Type 0
  pub AccountId : Type 0
  pub Signature : Type 0
  pub Era : Type 0
  pub Additional : Type 0
  pub mortal : ℕ → ℕ → Era

module _ (S : Signing) where
  -- The tuple `SignedExtra` of runtime/src/lib.rs: of its nine extensions the era, the nonce, the tip
  -- and the mode of `CheckMetadataHash` carry data.
  pub record SignedExtra : Type 0 where
    pub check_era : S.Era
    pub check_nonce : ℕ
    pub charge_transaction_payment : ℕ
    pub check_metadata_hash : Bool

  -- `SignedPayload`: the tuple of the call, the extensions and the additional data.
  pub record SignedPayload : Type 0 where
    pub call : S.Call
    pub extra : SignedExtra
    pub additional : S.Additional

  -- The extrinsic's signature payload, `(MultiAddress::Id(address), signature, extra)`.
  pub record SignaturePayload : Type 0 where
    pub address : S.AccountId
    pub signature : S.Signature
    pub extra : SignedExtra

module _ (S : Signing) (additional_signed : SignedExtra S → Option S.Additional)
    (sign : SignedPayload S → S.Public → Option S.Signature) where
  open S use {Call, Public, AccountId, Signature, Era, mortal}

  -- `SignedPayload::new(call, extra)`: it fails where the additional data cannot be had.
  abbrev pub new_payload : Call → SignedExtra S → Option (SignedPayload S)
  new_payload call extra = do
    additional ← additional_signed extra
    some (record { call = call; extra = extra; additional = additional })

  -- `extra`; `System::block_number` is an argument.
  abbrev pub extra_of : ℕ → ℕ → SignedExtra S
  extra_of block_number nonce =
      let tip : ℕ = 0 in
      let current_block = block_number - 1 in
      record {
        check_era = mortal (period block_hash_count) current_block;
        check_nonce = nonce;
        charge_transaction_payment = tip;
        check_metadata_hash = false;
      }

  -- The part of `create_transaction` behind `extra`.
  unfoldable pub create_with :
      Call → Public → AccountId → SignedExtra S → Option (Call × SignaturePayload S)
  create_with call public account extra = do
    raw_payload ← new_payload call extra
    signature ← sign raw_payload public
    some (
      raw_payload.call,
      record { address = account; signature = signature; extra = raw_payload.extra },
    )

  -- `create_transaction`
  unfoldable pub create_transaction :
      Call → Public → AccountId → ℕ → ℕ → Option (Call × SignaturePayload S)
  create_transaction call public account nonce block_number =
      create_with call public account (extra_of block_number nonce)
