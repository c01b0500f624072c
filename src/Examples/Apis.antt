-- ===== src/Examples/Apis.antt =====
-- The APIs of BABE and of the Ethereum storage, over numbers and lists of numbers.
use native.Mathlib.Nat.{pow-succ'}
use testchain.Base.{
  ℕ, zero, suc, ◌+◌, ◌*◌, ◌/◌, ◌%◌, ◌^◌, ◌<◌, ◌==◌, if◌then◌else◌, Option, none, some, List, [],
  ◌∷◌, ◌++◌, ◌≡◌, refl, ◌∙◌, inl, arith, length, length-append,
}
use testchain.RuntimeApi.Babe.{BabePallet, configuration}
use testchain.RuntimeApi.Epochs.{IsBabe, genesis_configuration, configuration-testnet_genesis}
use testchain.RuntimeApi.EvmViews.{EvmStorage, IsEvmStorage, storage_at, big_endian, storage_at_lem}
use testchain.Examples.Accounts.{crypto, rng, authorities, accounts, genesis, built}

-- The state is the number of the current epoch.
abbrev babe_pallet : BabePallet
babe_pallet = record {
  AuthorityId = ℕ;
  Randomness = ℕ;
  Epoch = ℕ;
  State = ℕ;
  slot_duration = λ period. 2 * period;
  epoch_config = λ s. none;
  authorities = λ s. (1, 1) ∷ (2, 1) ∷ [];
  randomness = λ s. s;
  current_epoch_start = λ s. s * 100;
  current_epoch = λ s. s;
  next_epoch = λ s. s + 1;
}

babe_pallet-IsBabe : IsBabe babe_pallet
babe_pallet-IsBabe = record { slot_duration_lem = λ period. refl }

configuration-testnet_genesis_example :
    configuration babe_pallet 3 ≡ genesis_configuration babe_pallet 3
configuration-testnet_genesis_example =
    configuration-testnet_genesis babe_pallet crypto rng 7 accounts authorities (3 ∷ []) 42 5 7
      genesis built babe_pallet-IsBabe 3 (inl refl)

-- The lowest digits of a number, in bytes.
abbrev digits : ℕ → ℕ → List ℕ
digits zero n = []
digits (suc k) n = digits k (n / 256) ++ (n % 256 ∷ [])

length-digits : (k n : ℕ) → length (digits k n) ≡ k
length-digits zero n = refl
length-digits (suc k) n =
    omega (arith, length-append (digits k (n / 256)) (n % 256 ∷ []), length-digits k (n / 256))

big_endian-append :
    (acc b : ℕ) (bs : List ℕ) → big_endian acc (bs ++ (b ∷ [])) ≡ big_endian acc bs * 256 + b
big_endian-append acc b [] = refl
big_endian-append acc b (x ∷ xs) = big_endian-append (acc * 256 + x) b xs

big_endian-digits : (k n : ℕ) → n < 256 ^ k → big_endian 0 (digits k n) ≡ n
big_endian-digits zero n h = omega (arith, h)
big_endian-digits (suc k) n h =
    let h' : n < 256 * 256 ^ k = rw (pow-succ' 256 k) at h in
    big_endian-append 0 (n % 256) (digits k (n / 256))
    ∙ omega (arith, big_endian-digits k (n / 256) (omega (arith, h')))

abbrev hash_of : List ℕ → Option (List ℕ)
hash_of bytes = if length bytes == 32 then some bytes else none

-- The state of an account is the account's number, in front of the key.
abbrev evm_storage : EvmStorage
evm_storage = record {
  H160 = ℕ;
  H256 = List ℕ;
  Account = ℕ;
  Weight = ℕ;
  Block = ℕ;
  Receipt = ℕ;
  Status = ℕ;
  State = ℕ;
  to_big_endian = λ n buffer. digits (length buffer) n;
  from_slice = hash_of;
  chain_id = λ s. 42;
  account_basic = λ a s. (a, 0);
  min_gas_price = λ s. (1, 0);
  account_codes = λ a s. [];
  find_author = λ s. 0;
  account_storages = λ a key s. a ∷ key;
  current_block = λ s. none;
  current_receipts = λ s. none;
  current_transaction_statuses = λ s. none;
  elasticity = λ s. 125000;
}

abbrev evm_storage-IsEvmStorage : IsEvmStorage evm_storage
evm_storage-IsEvmStorage = record {
  as_bytes = λ h. h;
  length-to_big_endian = λ n buffer h. length-digits (length buffer) n ∙ h;
  big_endian-to_big_endian =
      λ n buffer small h. rw h (big_endian-digits 32 n (omega (arith, small)));
  from_slice_lem = λ bytes h. (bytes, rw h refl, refl);
}

storage_at_lem_example :
    (key : List ℕ) × (storage_at evm_storage 5 258 1 ≡ some (5 ∷ key))
    × (length key ≡ 32)
    × (big_endian 0 key ≡ 258)
storage_at_lem_example = storage_at_lem evm_storage evm_storage-IsEvmStorage 5 258 1 (omega arith)
