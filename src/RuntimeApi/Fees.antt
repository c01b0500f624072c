-- ===== src/RuntimeApi/Fees.antt =====
-- runtime/src/apis.rs, lines 456 to 498, and runtime/src/configs/mod.rs, lines 211 to 222: the fees
-- that the runtime quotes, and the configuration of the pallet that computes them.
use testchain.Base.{ℕ, Option}
use testchain.Weight.{WeightOps}

-- `RuntimeDispatchInfo`, and `FeeDetails` with its `InclusionFee`.
pub record DispatchInfo (W : WeightOps) (Class : Type 0) : Type 0 where
  pub weight : W.Weight
  pub class : Class
  pub partial_fee : ℕ

pub record InclusionFee : Type 0 where
  pub base_fee : ℕ
  pub len_fee : ℕ
  pub adjusted_weight_fee : ℕ

pub record FeeDetails : Type 0 where
  pub inclusion_fee : Option InclusionFee
  pub tip : ℕ

-- What `Config` of the pallet `pallet_transaction_payment` sets: the prices of weight and length, the
-- update of the multiplier, a number of 10^-18, and the factor for operational calls.
pub record FeeConfig (W : WeightOps) : Type 0 where
  pub operational_fee_multiplier : ℕ
  pub weight_to_fee : W.Weight → ℕ
  pub length_to_fee : ℕ → ℕ
  pub update_multiplier : ℕ → ℕ

-- `FeeMultiplier`, one.
abbrev pub fee_multiplier : ℕ
fee_multiplier = 1_000_000_000_000_000_000

-- `impl pallet_transaction_payment::Config for Runtime`: `IdentityFee` for both prices, the time of a
-- weight and the length of a text, and `ConstFeeMultiplier<FeeMultiplier>`.
unfoldable pub fee_config : (W : WeightOps) → FeeConfig W
fee_config W = record {
  operational_fee_multiplier = 5;
  weight_to_fee = λ weight. W.ref_time weight;
  length_to_fee = λ length. length;
  update_multiplier = λ previous. fee_multiplier;
}

-- The pallet, for any configuration.
pub record PaymentPallet (W : WeightOps) : Type 1 where
  pub Extrinsic : Type 0
  pub RuntimeCall : Type 0
  pub Class : Type 0
  pub State : Type 0
  pub query_info : FeeConfig W → Extrinsic → ℕ → State → DispatchInfo W Class
  pub query_fee_details : FeeConfig W → Extrinsic → ℕ → State → FeeDetails
  pub query_call_info : FeeConfig W → RuntimeCall → ℕ → State → DispatchInfo W Class
  pub query_call_fee_details : FeeConfig W → RuntimeCall → ℕ → State → FeeDetails
  pub weight_to_fee : FeeConfig W → W.Weight → ℕ
  pub length_to_fee : FeeConfig W → ℕ → ℕ

module _ (W : WeightOps) (P : PaymentPallet W) where
  open P use {Extrinsic, RuntimeCall, Class, State}

  -- `TransactionPaymentApi::query_info`
  unfoldable pub api_query_info : Extrinsic → ℕ → State → DispatchInfo W Class
  api_query_info uxt len s = P.query_info (fee_config W) uxt len s

  -- `TransactionPaymentApi::query_fee_details`
  unfoldable pub api_query_fee_details : Extrinsic → ℕ → State → FeeDetails
  api_query_fee_details uxt len s = P.query_fee_details (fee_config W) uxt len s

  -- `TransactionPaymentApi::query_weight_to_fee`
  unfoldable pub api_query_weight_to_fee : W.Weight → ℕ
  api_query_weight_to_fee weight = P.weight_to_fee (fee_config W) weight

  -- `TransactionPaymentApi::query_length_to_fee`
  unfoldable pub api_query_length_to_fee : ℕ → ℕ
  api_query_length_to_fee length = P.length_to_fee (fee_config W) length

  -- `TransactionPaymentCallApi::query_call_info`
  unfoldable pub api_query_call_info : RuntimeCall → ℕ → State → DispatchInfo W Class
  api_query_call_info call len s = P.query_call_info (fee_config W) call len s

  -- `TransactionPaymentCallApi::query_call_fee_details`
  unfoldable pub api_query_call_fee_details : RuntimeCall → ℕ → State → FeeDetails
  api_query_call_fee_details call len s = P.query_call_fee_details (fee_config W) call len s

  -- `TransactionPaymentCallApi::query_weight_to_fee`
  unfoldable pub call_api_query_weight_to_fee : W.Weight → ℕ
  call_api_query_weight_to_fee weight = P.weight_to_fee (fee_config W) weight

  -- `TransactionPaymentCallApi::query_length_to_fee`
  unfoldable pub call_api_query_length_to_fee : ℕ → ℕ
  call_api_query_length_to_fee length = P.length_to_fee (fee_config W) length
