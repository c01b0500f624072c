-- ===== src/RuntimeApi/Quotes.antt =====
-- The fees that the runtime API (runtime/src/apis.rs) quotes, under the runtime's configuration of
-- the pallet that computes them (runtime/src/configs/mod.rs).
use testchain.Base.{
  ℕ, ◌*◌, ◌/◌, ◌≡◌, refl, ap, ◌∙◌, Bool, true, false, if◌then◌else◌, Option, none, some, arith, min,
}
use testchain.Base.Words.{u128_max, saturating_add}
use testchain.Weight.{WeightOps, IsLawful}
use testchain.Configs.Limits.{LimitOps, runtime_block_weights}
use testchain.Configs.Budgets.{IsLimits, max_block_lem}
use testchain.RuntimeApi.Fees.{
  InclusionFee, FeeDetails, FeeConfig, fee_config, fee_multiplier, PaymentPallet, api_query_info,
  api_query_fee_details, api_query_weight_to_fee, api_query_length_to_fee, api_query_call_info,
  api_query_call_fee_details, call_api_query_weight_to_fee, call_api_query_length_to_fee,
}

abbrev inclusion_fee_of : Option InclusionFee → ℕ
inclusion_fee_of none = 0
inclusion_fee_of (some i) =
    saturating_add u128_max (saturating_add u128_max i.base_fee i.len_fee) i.adjusted_weight_fee

-- The sum of a fee's parts and the tip, in a `Balance`.
abbrev pub total : FeeDetails → ℕ
total fee = saturating_add u128_max (inclusion_fee_of fee.inclusion_fee) fee.tip

module _ (W : WeightOps) (L : LimitOps W) (P : PaymentPallet W) where
  open P use {Extrinsic, RuntimeCall, Class, State}

  -- The documented behaviour of the pallet: a price is that of the configuration, the weight cut off
  -- at the block's; a fee has the price of the class's base weight, that of the length, and that of
  -- the call's weight, times the multiplier; a call that pays nothing, and an extrinsic that is not
  -- signed, have none.
  pub record IsPayment : Type 0 where
    pub call_of : Extrinsic → RuntimeCall
    pub is_signed : Extrinsic → Bool
    pub weight_of : RuntimeCall → W.Weight
    pub class_of : RuntimeCall → Class
    pub pays : RuntimeCall → Bool
    pub base_weight : Class → W.Weight
    pub cap : W.Weight → W.Weight
    pub multiplier : State → ℕ
    pub ref_time-cap :
        (w : W.Weight)
        → W.ref_time (cap w)
          ≡ min (W.ref_time w) (W.ref_time (L.max_block (runtime_block_weights W L)))
    pub weight_to_fee_lem :
        (f : FeeConfig W) (w : W.Weight) → P.weight_to_fee f w ≡ f.weight_to_fee (cap w)
    pub length_to_fee_lem : (f : FeeConfig W) (n : ℕ) → P.length_to_fee f n ≡ f.length_to_fee n
    pub query_call_fee_details_lem :
        (f : FeeConfig W) (call : RuntimeCall) (len : ℕ) (s : State)
        → P.query_call_fee_details f call len s ≡ record {
          inclusion_fee =
              if pays call
              then some (record {
                base_fee = P.weight_to_fee f (base_weight (class_of call));
                len_fee = P.length_to_fee f len;
                adjusted_weight_fee =
                    min u128_max (
                      multiplier s
                      * P.weight_to_fee f (weight_of call)
                      / 1_000_000_000_000_000_000);
              })
              else none;
          tip = 0;
        }
    pub query_call_info_lem :
        (f : FeeConfig W) (call : RuntimeCall) (len : ℕ) (s : State)
        → P.query_call_info f call len s ≡ record {
          weight = weight_of call;
          class = class_of call;
          partial_fee = total (P.query_call_fee_details f call len s);
        }
    pub query_fee_details_lem :
        (f : FeeConfig W) (xt : Extrinsic) (len : ℕ) (s : State)
        → P.query_fee_details f xt len s ≡ (
            if is_signed xt
            then P.query_call_fee_details f (call_of xt) len s
            else record { inclusion_fee = none; tip = 0 })
    pub query_info_lem :
        (f : FeeConfig W) (xt : Extrinsic) (len : ℕ) (s : State)
        → P.query_info f xt len s ≡ record {
          weight = weight_of (call_of xt);
          class = class_of (call_of xt);
          partial_fee = total (P.query_fee_details f xt len s);
        }

  module _ (A : IsLawful W) (I : IsLimits W L) (J : IsPayment) where
    -- The time of a weight, of a block's two seconds at most.
    abbrev pub time_fee : W.Weight → ℕ
    time_fee w = min (W.ref_time w) 2_000_000_000_000

    weight_to_fee-eq : (w : W.Weight) → P.weight_to_fee (fee_config W) w ≡ time_fee w
    unfolding fee_config
    weight_to_fee-eq w =
        J.weight_to_fee_lem (fee_config W) w
        ∙ J.ref_time-cap w
        ∙ ap (min (W.ref_time w)) (max_block_lem W L A I).0

    length_to_fee-eq : (n : ℕ) → P.length_to_fee (fee_config W) n ≡ n
    unfolding fee_config
    length_to_fee-eq n = J.length_to_fee_lem (fee_config W) n

    -- The fee of a call by its meaning: a unit of balance for each picosecond of the base weight and
    -- of the call, and for each byte.
    abbrev pub fee_of : RuntimeCall → ℕ → FeeDetails
    fee_of call len = record {
      inclusion_fee =
          if J.pays call
          then some (record {
            base_fee = time_fee (J.base_weight (J.class_of call));
            len_fee = len;
            adjusted_weight_fee = time_fee (J.weight_of call);
          })
          else none;
      tip = 0;
    }

    total_if :
        (b : Bool) (fee : FeeDetails)
        → total (if b then fee else record { inclusion_fee = none; tip = 0 })
          ≡ (if b then total fee else 0)
    total_if true fee = refl
    total_if false fee = refl

    call_details-eq :
        (call : RuntimeCall) (len : ℕ) (s : State)
        → J.multiplier s ≡ fee_multiplier
        → P.query_call_fee_details (fee_config W) call len s ≡ fee_of call len
    call_details-eq call len s e =
        let exact : (v : W.Weight)
            → min u128_max (fee_multiplier * time_fee v / 1_000_000_000_000_000_000) ≡ time_fee v =
          λ v. omega arith in
        J.query_call_fee_details_lem (fee_config W) call len s
        ∙ simp (weight_to_fee-eq, length_to_fee-eq, e, exact)

    -- In a state whose multiplier the configured update has set, whatever it was before, the quotes
    -- depend on the extrinsic alone. A signed extrinsic is quoted the fee of its call, in parts and in
    -- sum, an unsigned one none, and the API for calls quotes the same. The prices of weight and length
    -- are the time, of a block's at most, and the length itself, in both APIs.
    pub quotes_lem :
        (xt : Extrinsic) (len previous : ℕ) (s : State) (w : W.Weight)
        → J.multiplier s ≡ (fee_config W).update_multiplier previous
        → let fee = fee_of (J.call_of xt) len in
          (api_query_call_fee_details W P (J.call_of xt) len s ≡ fee)
          × ((api_query_call_info W P (J.call_of xt) len s).partial_fee ≡ total fee)
          × (api_query_fee_details W P xt len s
              ≡ (if J.is_signed xt then fee else record { inclusion_fee = none; tip = 0 }))
          × ((api_query_info W P xt len s).partial_fee ≡ (if J.is_signed xt then total fee else 0))
          × (api_query_weight_to_fee W P w ≡ time_fee w)
          × (call_api_query_weight_to_fee W P w ≡ time_fee w)
          × (api_query_length_to_fee W P len ≡ len)
          × (call_api_query_length_to_fee W P len ≡ len)
    unfolding fee_config api_query_call_fee_details api_query_call_info api_query_fee_details
        api_query_info api_query_weight_to_fee call_api_query_weight_to_fee api_query_length_to_fee
        call_api_query_length_to_fee
    quotes_lem xt len previous s w e =
        let call = J.call_of xt in
        let f = fee_config W in
        let none_of : FeeDetails = record { inclusion_fee = none; tip = 0 } in
        let details = call_details-eq call len s e in
        let of_xt =
          J.query_fee_details_lem f xt len s
          ∙ ap (λ d. if J.is_signed xt then d else none_of) details in
        (
          details,
          ap (λ i. i.partial_fee) (J.query_call_info_lem f call len s) ∙ ap total details,
          of_xt,
          ap (λ i. i.partial_fee) (J.query_info_lem f xt len s)
              ∙ ap total of_xt
              ∙ total_if (J.is_signed xt) (fee_of call len),
          weight_to_fee-eq w,
          weight_to_fee-eq w,
          length_to_fee-eq len,
          length_to_fee-eq len,
        )
