-- ===== src/RuntimeApi/Inspect.antt =====
-- runtime/src/apis.rs, lines 176 to 188 and 754 to 795, with runtime/src/benchmarks.rs: the metadata,
-- and the benchmarks of the runtime. What the macros of the crates make of an entry is a parameter.
use testchain.Base.{ℕ, Bool, false, Option, List, [], ◌∷◌, String, ◌≡◌, refl, All}
use testchain.Base.Result.{Result, ok, err}
use testchain.Pallets.{Pallet, balances, timestamp, sudo, template_module}

-- `Runtime::metadata` and its versions.
pub record Metadata : Type 1 where
  pub RuntimeMetadata : Type 0
  pub OpaqueMetadata : Type 0
  pub new_opaque : RuntimeMetadata → OpaqueMetadata
  pub metadata : RuntimeMetadata
  pub metadata_at_version : ℕ → Option OpaqueMetadata
  pub metadata_versions : List ℕ

module _ (K : Metadata) where
  -- `Metadata::metadata`
  unfoldable pub api_metadata : K.OpaqueMetadata
  api_metadata = K.new_opaque K.metadata

  -- `Metadata::metadata_at_version`
  unfoldable pub api_metadata_at_version : ℕ → Option K.OpaqueMetadata
  api_metadata_at_version version = K.metadata_at_version version

  -- `Metadata::metadata_versions`
  unfoldable pub api_metadata_versions : List ℕ
  api_metadata_versions = K.metadata_versions

-- What a benchmark is made for.
pub data Benched : Type 0 where
  baseline_bench system_bench : Benched
  bench : Pallet → Benched

-- `define_benchmarks!`
abbrev pub benchmarks : List (String × Benched)
benchmarks =
    ("frame_benchmarking", baseline_bench)
    ∷ ("frame_system", system_bench)
    ∷ ("pallet_balances", bench balances)
    ∷ ("pallet_timestamp", bench timestamp)
    ∷ ("pallet_sudo", bench sudo)
    ∷ ("pallet_template", bench template_module)
    ∷ []

-- `list_benchmark!` and `add_benchmark!` for one entry, which may return early, and the storage of all
-- pallets.
pub record Benching : Type 1 where
  pub State : Type 0
  pub BenchmarkList : Type 0
  pub StorageInfo : Type 0
  pub BenchmarkConfig : Type 0
  pub TrackedStorageKey : Type 0
  pub BenchmarkBatch : Type 0
  pub RuntimeString : Type 0
  pub storage_info : List StorageInfo
  pub whitelisted_storage_keys : List TrackedStorageKey
  pub list_benchmark : Bool → String × Benched → List BenchmarkList → List BenchmarkList
  pub add_benchmark :
      BenchmarkConfig × List TrackedStorageKey
      → String × Benched
      → List BenchmarkBatch
      → State
      → Result RuntimeString (List BenchmarkBatch) × State

module _ (B : Benching) where
  -- `list_benchmarks!`
  abbrev list_benchmarks :
      Bool → List (String × Benched) → List B.BenchmarkList → List B.BenchmarkList
  list_benchmarks extra [] list = list
  list_benchmarks extra (b ∷ bs) list = list_benchmarks extra bs (B.list_benchmark extra b list)

  -- `benchmark_metadata`
  unfoldable pub benchmark_metadata : Bool → List B.BenchmarkList × List B.StorageInfo
  benchmark_metadata extra = (list_benchmarks extra benchmarks [], B.storage_info)

  -- The early return of an error.
  abbrev continue :
      Result B.RuntimeString (List B.BenchmarkBatch) × B.State
      → (List B.BenchmarkBatch → B.State → Result B.RuntimeString (List B.BenchmarkBatch) × B.State)
      → Result B.RuntimeString (List B.BenchmarkBatch) × B.State
  continue (err e, s) next = (err e, s)
  continue (ok batches, s) next = next batches s

  -- `add_benchmarks!`
  abbrev add_benchmarks :
      B.BenchmarkConfig × List B.TrackedStorageKey
      → List (String × Benched)
      → List B.BenchmarkBatch
      → B.State
      → Result B.RuntimeString (List B.BenchmarkBatch) × B.State
  add_benchmarks params [] batches s = (ok batches, s)
  add_benchmarks params (b ∷ bs) batches s =
      continue (B.add_benchmark params b batches s) (λ more s'. add_benchmarks params bs more s')

  -- `dispatch_benchmark`
  unfoldable pub dispatch_benchmark :
      B.BenchmarkConfig → B.State → Result B.RuntimeString (List B.BenchmarkBatch) × B.State
  dispatch_benchmark config s = add_benchmarks (config, B.whitelisted_storage_keys) benchmarks [] s

  -- The documented behaviour of the macro: a configuration names a pallet, and an entry of another
  -- name is passed over.
  pub record IsSelective : Type 0 where
    pub selects : B.BenchmarkConfig → String → Bool
    pub passed_over :
        (config : B.BenchmarkConfig) (keys : List B.TrackedStorageKey) (b : String × Benched)
        (batches : List B.BenchmarkBatch) (s : B.State)
        → selects config b.0 ≡ false
        → B.add_benchmark (config, keys) b batches s ≡ (ok batches, s)

  passed_over-All :
      (I : IsSelective) (config : B.BenchmarkConfig) (bs : List (String × Benched))
      (batches : List B.BenchmarkBatch) (s : B.State)
      → All (λ (b : String × Benched). I.selects config b.0 ≡ false) bs
      → add_benchmarks (config, B.whitelisted_storage_keys) bs batches s ≡ (ok batches, s)
  passed_over-All I config [] batches s h = refl
  passed_over-All I config (b ∷ bs) batches s h =
      rw (I.passed_over config B.whitelisted_storage_keys b batches s h.0)
        (passed_over-All I config bs batches s h.1)

  -- A configuration that selects none of the six entries runs nothing: it gives no batches, without
  -- an error or a change of state.
  pub dispatch_benchmark_lem :
      (I : IsSelective) (config : B.BenchmarkConfig) (s : B.State)
      → All (λ (b : String × Benched). I.selects config b.0 ≡ false) benchmarks
      → dispatch_benchmark config s ≡ (ok [], s)
  unfolding dispatch_benchmark
  dispatch_benchmark_lem I config s h = passed_over-All I config benchmarks [] s h
