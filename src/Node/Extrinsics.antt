-- ===== src/Node/Extrinsics.antt =====
-- node/src/benchmarking.rs, lines 22 to 148: the extrinsics for measurements. What the file calls, the
-- client among it, is the parameter `Toolkit`; a panic is `none`.
use Prim.Native.String.{String}
use testchain.Base.{ℕ, Option, some, List, []}
use testchain.Base.OptionMonad.{◌>>=◌}
use testchain.Configs.Transactions.{period, block_hash_count}
use testchain.RuntimeApi.Core.{version}

-- Keys and their pairs, hashes, eras, the calls that are built, and what the client knows of the
-- chain. The failure of `block_hash`, and no hash, are both `none`, as `.ok().flatten()` makes them.
pub record Toolkit : Type 1 where
  pub Pair : Type 0
  pub Public : Type 0
  pub AccountId : Type 0
  pub Signature : Type 0
  pub Hash : Type 0
  pub Era : Type 0
  pub Call : Type 0
  pub remark : List ℕ → Call
  pub transfer_keep_alive : AccountId → ℕ → Call
  pub mortal : ℕ → ℕ → Era
  pub from_string : String → Option Pair
  pub public : Pair → Public
  pub account_of : Public → AccountId
  pub block_hash : ℕ → Option Hash
  pub best_hash : Hash
  pub best_number : ℕ

module _ (T : Toolkit) where
  -- The tuple of extensions that the file writes, eight of them, of which the era, the nonce and the
  -- tip carry data.
  pub record BenchmarkExtra : Type 0 where
    pub check_mortality : T.Era
    pub check_nonce : ℕ
    pub charge_transaction_payment : ℕ

  -- The additional data: the entries of the tuple that are not `()`.
  pub record BenchmarkAdditional : Type 0 where
    pub spec_version : ℕ
    pub transaction_version : ℕ
    pub genesis_hash : T.Hash
    pub best_hash : T.Hash

  -- `SignedPayload::from_raw`
  pub record BenchmarkPayload : Type 0 where
    pub call : T.Call
    pub extra : BenchmarkExtra
    pub additional : BenchmarkAdditional

  -- `UncheckedExtrinsic::new_signed`
  pub record BenchmarkExtrinsic : Type 0 where
    pub call : T.Call
    pub signed : T.AccountId
    pub signature : T.Signature
    pub extra : BenchmarkExtra

  -- `RemarkBuilder` and `TransferKeepAliveBuilder`, with its destination and value.
  pub data ExtrinsicBuilder : Type 0 where
    remark_builder : ExtrinsicBuilder
    transfer_keep_alive_builder : T.AccountId → ℕ → ExtrinsicBuilder

module _ (T : Toolkit) (sign : T.Pair → BenchmarkPayload T → T.Signature) where
  open T use {Pair, Call, Hash}

  -- `extra`
  abbrev pub benchmark_extra : ℕ → BenchmarkExtra T
  benchmark_extra nonce = record {
    check_mortality = T.mortal (period block_hash_count) T.best_number;
    check_nonce = nonce;
    charge_transaction_payment = 0;
  }

  -- `raw_payload`
  abbrev pub benchmark_payload : Hash → Call → ℕ → BenchmarkPayload T
  benchmark_payload genesis_hash call nonce = record {
    call = call;
    extra = benchmark_extra nonce;
    additional = record {
      spec_version = (version tt).spec_version;
      transaction_version = (version tt).transaction_version;
      genesis_hash = genesis_hash;
      best_hash = T.best_hash;
    };
  }

  -- `create_benchmark_extrinsic`
  unfoldable pub create_benchmark_extrinsic : Pair → Call → ℕ → Option (BenchmarkExtrinsic T)
  create_benchmark_extrinsic sender call nonce = do
    genesis_hash ← T.block_hash 0
    let raw_payload = benchmark_payload genesis_hash call nonce
    some (record {
      call = call;
      signed = T.account_of (T.public sender);
      signature = sign sender raw_payload;
      extra = benchmark_extra nonce;
    })

  -- The call of a builder.
  abbrev pub builder_call : ExtrinsicBuilder T → Call
  builder_call remark_builder = T.remark []
  builder_call (transfer_keep_alive_builder dest value) = T.transfer_keep_alive dest value

  -- `ExtrinsicBuilder::pallet` and `ExtrinsicBuilder::extrinsic`
  abbrev pub builder_name : ExtrinsicBuilder T → String × String
  builder_name remark_builder = ("system", "remark")
  builder_name (transfer_keep_alive_builder dest value) = ("balances", "transfer_keep_alive")

  -- `ExtrinsicBuilder::build`
  unfoldable pub build : ExtrinsicBuilder T → ℕ → Option (BenchmarkExtrinsic T)
  build builder nonce = do
    acc ← T.from_string "//Bob"
    create_benchmark_extrinsic acc (builder_call builder) nonce
