-- ===== src/Genesis/Evm.antt =====
-- The Ethereum accounts of `testnet_genesis` (node/src/chain_spec.rs, lines 179 to 221). An `H160`
-- is the number that its hexadecimal digits write, and `BTreeMap` is a list in the order of its keys.
use testchain.Base.{ℕ, List, [], ◌∷◌, ltb, ◌==◌, if◌then◌else◌}

-- `fp_evm::GenesisAccount`; a default storage is empty.
pub record GenesisAccount : Type 0 where
  pub nonce : ℕ
  pub balance : ℕ
  pub storage : List (ℕ × ℕ)
  pub code : List ℕ

-- `BTreeMap::insert`: a new value takes the place of the old one.
unfoldable pub insert {ℓ} : {V : Type ℓ} → ℕ → V → List (ℕ × V) → List (ℕ × V)
insert k v [] = (k, v) ∷ []
insert k v ((j, w) ∷ m) =
    let rest = insert k v m in
    if k == j then (k, v) ∷ m else if ltb k j then (k, v) ∷ (j, w) ∷ m else (j, w) ∷ rest

-- `evm_accounts`
unfoldable pub evm_accounts : List (ℕ × GenesisAccount)
unfolding insert
evm_accounts =
    insert 0x1000000000000000000000000000000000000001
      (record {
        nonce = 1;
        balance = 1_000_000_000_000_000_000_000_000;
        storage = [];
        code = 0x00 ∷ [];
      })
      (insert 0x6be02d1d3665660d22ff9624b7be0551ee1ac91b
        (record {
          balance = 0xffffffffffffffffffffffffffffffff;
          code = [];
          nonce = 0;
          storage = [];
        })
        (insert 0x8097c3C354652CB1EEed3E5B65fBa2576470678A
          (record {
            balance = 0xffffffffffffffffffffffffffffffff;
            code = [];
            nonce = 0;
            storage = [];
          })
          []))
