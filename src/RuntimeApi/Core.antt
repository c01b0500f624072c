-- ===== src/RuntimeApi/Core.antt =====
-- runtime/src/apis.rs, lines 162 to 225 and 741 to 743: the APIs by which blocks are made, checked and executed, with
-- `VERSION` of runtime/src/lib.rs, lines 70 to 84, and its `native_version`.
use testchain.Base.{ℕ, Option, List, [], String}

-- `RuntimeVersion`. The versions of the APIs are generated.
pub record RuntimeVersion (ApiVersions : Type 0) : Type 0 where
  pub spec_name : String
  pub impl_name : String
  pub authoring_version : ℕ
  pub spec_version : ℕ
  pub impl_version : ℕ
  pub apis : ApiVersions
  pub transaction_version : ℕ
  pub state_version : ℕ

-- `VERSION`
abbrev pub version : {ApiVersions : Type 0} → ApiVersions → RuntimeVersion ApiVersions
version runtime_api_versions = record {
  spec_name = "solochain-template-runtime";
  impl_name = "solochain-template-runtime";
  authoring_version = 1;
  spec_version = 100;
  impl_version = 1;
  apis = runtime_api_versions;
  transaction_version = 1;
  state_version = 1;
}

-- `NativeVersion`, with the default of `can_author_with`, the empty set.
pub record NativeVersion (ApiVersions : Type 0) : Type 0 where
  pub runtime_version : RuntimeVersion ApiVersions
  pub can_author_with : List ℕ

-- `native_version`
abbrev pub native_version : {ApiVersions : Type 0} → ApiVersions → NativeVersion ApiVersions
native_version runtime_api_versions = record {
  runtime_version = version runtime_api_versions;
  can_author_with = [];
}

-- `Executive`, with the types that it handles, and the inherents. The panic of an execution is `none`.
pub record Executive : Type 1 where
  pub State : Type 0
  pub Header : Type 0
  pub Extrinsic : Type 0
  pub Mode : Type 0
  pub ApplyResult : Type 0
  pub Source : Type 0
  pub Hash : Type 0
  pub Validity : Type 0
  pub InherentData : Type 0
  pub CheckResult : Type 0
  pub ApiVersions : Type 0
  pub api_versions : ApiVersions
  pub initialize_block : Header → State → Mode × State
  pub apply_extrinsic : Extrinsic → State → ApplyResult × State
  pub finalize_block : State → Header × State
  pub execute_block : Header × List Extrinsic → State → Option State
  pub validate_transaction : Source → Extrinsic → Hash → State → Validity
  pub offchain_worker : Header → State → State
  pub create_extrinsics : InherentData → List Extrinsic
  pub check_extrinsics : InherentData → Header × List Extrinsic → CheckResult

module _ (X : Executive) where
  open X use {
    State, Header, Extrinsic, Mode, ApplyResult, Source, Hash, Validity, InherentData, CheckResult,
    ApiVersions,
  }

  -- `sp_api::Core`
  unfoldable pub core_version : RuntimeVersion ApiVersions
  core_version = version X.api_versions

  unfoldable pub core_execute_block : Header × List Extrinsic → State → Option State
  core_execute_block block s = X.execute_block block s

  unfoldable pub core_initialize_block : Header → State → Mode × State
  core_initialize_block header s = X.initialize_block header s

  -- `sp_block_builder::BlockBuilder`
  unfoldable pub builder_apply_extrinsic : Extrinsic → State → ApplyResult × State
  builder_apply_extrinsic extrinsic s = X.apply_extrinsic extrinsic s

  unfoldable pub builder_finalize_block : State → Header × State
  builder_finalize_block s = X.finalize_block s

  unfoldable pub builder_inherent_extrinsics : InherentData → List Extrinsic
  builder_inherent_extrinsics data_of_block = X.create_extrinsics data_of_block

  unfoldable pub builder_check_inherents : Header × List Extrinsic → InherentData → CheckResult
  builder_check_inherents block data_of_block = X.check_extrinsics data_of_block block

  -- `TaggedTransactionQueue::validate_transaction`
  unfoldable pub api_validate_transaction : Source → Extrinsic → Hash → State → Validity
  api_validate_transaction source tx block_hash s = X.validate_transaction source tx block_hash s

  -- `OffchainWorkerApi::offchain_worker`
  unfoldable pub api_offchain_worker : Header → State → State
  api_offchain_worker header s = X.offchain_worker header s

  -- `EthereumRuntimeRPCApi::initialize_pending_block`, which drops the mode.
  unfoldable pub initialize_pending_block : Header → State → State
  initialize_pending_block header s = (X.initialize_block header s).1
