-- ===== src/RuntimeApi/Contracts.antt =====
-- runtime/src/apis.rs, lines 376 to 448: the API of contracts.
use testchain.Base.{ℕ, Option, List, unwrap_or}
use testchain.Weight.{WeightOps}
use testchain.Configs.Limits.{LimitOps, runtime_block_weights}

-- `pallet_contracts::DebugInfo`, `CollectEvents` and `Determinism`
pub data DebugInfo : Type 0 where
  skip unsafe_debug : DebugInfo

pub data CollectEvents : Type 0 where
  skip_events unsafe_collect : CollectEvents

pub data Determinism : Type 0 where
  enforced relaxed : Determinism

-- The types of the pallet. A `Balance` is a number, a text of bytes a list of numbers.
pub record ContractTypes : Type 1 where
  pub AccountId : Type 0
  pub Code : Type 0
  pub State : Type 0
  pub ExecResult : Type 0
  pub InstantiateResult : Type 0
  pub UploadResult : Type 0
  pub StorageResult : Type 0

module _ (W : WeightOps) (T : ContractTypes) where
  open T use {AccountId, Code, State, ExecResult, InstantiateResult, UploadResult, StorageResult}

  -- The arguments of `Contracts::bare_call`.
  pub record BareCall : Type 0 where
    pub origin : AccountId
    pub dest : AccountId
    pub value : ℕ
    pub gas_limit : W.Weight
    pub storage_deposit_limit : Option ℕ
    pub input_data : List ℕ
    pub debug : DebugInfo
    pub collect_events : CollectEvents
    pub determinism : Determinism

  -- The arguments of `Contracts::bare_instantiate`.
  pub record BareInstantiate : Type 0 where
    pub origin : AccountId
    pub value : ℕ
    pub gas_limit : W.Weight
    pub storage_deposit_limit : Option ℕ
    pub code : Code
    pub input_data : List ℕ
    pub salt : List ℕ
    pub debug : DebugInfo
    pub collect_events : CollectEvents

module _ (W : WeightOps) (T : ContractTypes) where
  open T use {AccountId, Code, State, ExecResult, InstantiateResult, UploadResult, StorageResult}

  -- The pallet `pallet_contracts`.
  pub record ContractsPallet : Type 0 where
    pub bare_call : BareCall W T → State → ExecResult × State
    pub bare_instantiate : BareInstantiate W T → State → InstantiateResult × State
    pub bare_upload_code :
        AccountId → List ℕ → Option ℕ → Determinism → State → UploadResult × State
    pub get_storage : AccountId → List ℕ → State → StorageResult

module _ (W : WeightOps) (L : LimitOps W) (T : ContractTypes) (P : ContractsPallet W T) where
  open W use {Weight, ref_time, proof_size}
  open T use {AccountId, Code, State, ExecResult, InstantiateResult, UploadResult, StorageResult}
  open P use {bare_call, bare_instantiate, bare_upload_code}

  -- `gas_limit.unwrap_or(RuntimeBlockWeights::get().max_block)`
  unfoldable pub gas_or_max : Option Weight → Weight
  gas_or_max gas_limit = unwrap_or gas_limit (L.max_block (runtime_block_weights W L))

  -- `call`
  unfoldable pub contract_call :
      AccountId → AccountId → ℕ → Option Weight → Option ℕ → List ℕ → State → ExecResult × State
  contract_call origin dest value gas_limit storage_deposit_limit input_data s =
      bare_call
        (record {
          origin = origin;
          dest = dest;
          value = value;
          gas_limit = gas_or_max gas_limit;
          storage_deposit_limit = storage_deposit_limit;
          input_data = input_data;
          debug = unsafe_debug;
          collect_events = unsafe_collect;
          determinism = enforced;
        })
        s

  -- `instantiate`
  unfoldable pub contract_instantiate :
      AccountId
      → ℕ
      → Option Weight
      → Option ℕ
      → Code
      → List ℕ
      → List ℕ
      → State
      → InstantiateResult × State
  contract_instantiate origin value gas_limit storage_deposit_limit code input_data salt s =
      bare_instantiate
        (record {
          origin = origin;
          value = value;
          gas_limit = gas_or_max gas_limit;
          storage_deposit_limit = storage_deposit_limit;
          code = code;
          input_data = input_data;
          salt = salt;
          debug = unsafe_debug;
          collect_events = unsafe_collect;
        })
        s

  -- `upload_code`
  unfoldable pub contract_upload_code :
      AccountId → List ℕ → Option ℕ → Determinism → State → UploadResult × State
  contract_upload_code origin code storage_deposit_limit determinism s =
      bare_upload_code origin code storage_deposit_limit determinism s

  -- `get_storage`
  unfoldable pub contract_get_storage : AccountId → List ℕ → State → StorageResult
  contract_get_storage address key s = P.get_storage address key s
