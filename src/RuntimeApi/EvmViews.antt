-- ===== src/RuntimeApi/EvmViews.antt =====
-- runtime/src/apis.rs, lines 500 to 527, 687 to 709 and 720 to 722: what the Ethereum API reads.
use testchain.Base.{
  ℕ, ◌+◌, ◌*◌, ◌≤◌, ◌≡◌, refl, ◌∙◌, ap, Option, some, List, [], ◌∷◌, length, replicate,
}
use testchain.Base.OptionMonad.{◌>>=◌}
use testchain.Base.Words.{u256_max}

-- The pallets that are read, `U256::to_big_endian`, which writes into a buffer, and
-- `H256::from_slice`, whose panic is `none`. A byte is a number, a `U256` too.
pub record EvmStorage : Type 1 where
  pub H160 : Type 0
  pub H256 : Type 0
  pub Account : Type 0
  pub Weight : Type 0
  pub Block : Type 0
  pub Receipt : Type 0
  pub Status : Type 0
  pub State : Type 0
  pub to_big_endian : ℕ → List ℕ → List ℕ
  pub from_slice : List ℕ → Option H256
  pub chain_id : State → ℕ
  pub account_basic : H160 → State → Account × Weight
  pub min_gas_price : State → ℕ × Weight
  pub account_codes : H160 → State → List ℕ
  pub find_author : State → H160
  pub account_storages : H160 → H256 → State → H256
  pub current_block : State → Option Block
  pub current_receipts : State → Option (List Receipt)
  pub current_transaction_statuses : State → Option (List Status)
  -- `Elasticity`, in parts of a million.
  pub elasticity : State → ℕ

module _ (V : EvmStorage) where
  open V use {H160, H256, Account, Block, Receipt, Status, State}

  -- `chain_id`
  unfoldable pub api_chain_id : State → ℕ
  api_chain_id s = V.chain_id s

  -- `account_basic`
  unfoldable pub api_account_basic : H160 → State → Account
  api_account_basic address s = let (account, _) = V.account_basic address s in account

  -- `gas_price`
  unfoldable pub api_gas_price : State → ℕ
  api_gas_price s = let (gas_price, _) = V.min_gas_price s in gas_price

  -- `account_code_at`
  unfoldable pub api_account_code_at : H160 → State → List ℕ
  api_account_code_at address s = V.account_codes address s

  -- `author`
  unfoldable pub api_author : State → H160
  api_author s = V.find_author s

  -- `storage_at`, with the buffer `[0u8; 32]`.
  unfoldable pub storage_at : H160 → ℕ → State → Option H256
  storage_at address index s = do
    let tmp = V.to_big_endian index (replicate 32 0)
    key ← V.from_slice tmp
    some (V.account_storages address key s)

  -- `current_transaction_statuses`
  unfoldable pub api_current_transaction_statuses : State → Option (List Status)
  api_current_transaction_statuses s = V.current_transaction_statuses s

  -- `current_block`
  unfoldable pub api_current_block : State → Option Block
  api_current_block s = V.current_block s

  -- `current_receipts`
  unfoldable pub api_current_receipts : State → Option (List Receipt)
  api_current_receipts s = V.current_receipts s

  -- `current_all`
  unfoldable pub api_current_all :
      State → Option Block × Option (List Receipt) × Option (List Status)
  api_current_all s = (V.current_block s, V.current_receipts s, V.current_transaction_statuses s)

  -- `elasticity`
  unfoldable pub api_elasticity : State → Option ℕ
  api_elasticity s = some (V.elasticity s)

-- The number that bytes stand for, the highest first, after those that stand for a first number.
abbrev pub big_endian : ℕ → List ℕ → ℕ
big_endian n [] = n
big_endian n (b ∷ bs) = big_endian (n * 256 + b) bs

module _ (V : EvmStorage) where
  -- The documented behaviour of `U256` and `H256`: a buffer of 32 bytes is filled with the bytes of
  -- the number, and 32 bytes are a hash.
  pub record IsEvmStorage : Type 0 where
    pub as_bytes : V.H256 → List ℕ
    pub length-to_big_endian :
        (n : ℕ) (buffer : List ℕ) → length buffer ≡ 32 → length (V.to_big_endian n buffer) ≡ 32
    pub big_endian-to_big_endian :
        (n : ℕ) (buffer : List ℕ)
        → n ≤ u256_max
        → length buffer ≡ 32
        → big_endian 0 (V.to_big_endian n buffer) ≡ n
    pub from_slice_lem :
        (bytes : List ℕ)
        → length bytes ≡ 32
        → (h : V.H256) × (V.from_slice bytes ≡ some h) × (as_bytes h ≡ bytes)

  -- For every 256-bit index `storage_at` answers, without a panic, what the account has stored under
  -- the key whose 32 bytes, the highest first, are that index: different indices read different keys.
  pub storage_at_lem :
      (I : IsEvmStorage) (address : V.H160) (index : ℕ) (s : V.State)
      → index ≤ u256_max
      → (key : V.H256) × (storage_at V address index s ≡ some (V.account_storages address key s))
        × (length (I.as_bytes key) ≡ 32)
        × (big_endian 0 (I.as_bytes key) ≡ index)
  unfolding storage_at
  storage_at_lem I address index s small =
      let tmp = V.to_big_endian index (replicate 32 0) in
      let sized = I.length-to_big_endian index (replicate 32 0) refl in
      let (key, made, same) = I.from_slice_lem tmp sized in
      (
        key,
        rw (storage_at, made) refl,
        ap length same ∙ sized,
        ap (big_endian 0) same ∙ I.big_endian-to_big_endian index (replicate 32 0) small refl,
      )
