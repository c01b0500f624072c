-- ===== src/Examples/Fees.antt =====
-- The quotes of fees, over numbers, with the limits of `Limits`.
use testchain.Base.{ℕ, ◌==◌, ◌*◌, ◌/◌, ◌≡◌, refl, Bool, true, false, if◌then◌else◌, none, some, min}
use testchain.Base.Words.{u128_max}
use testchain.Examples.Limits.{weights, limits, weights-IsLawful, limits-IsLimits}
use testchain.Configs.Limits.{runtime_block_weights}
use testchain.RuntimeApi.Fees.{
  FeeConfig, FeeDetails, PaymentPallet, fee_config, fee_multiplier, api_query_info,
  api_query_fee_details, api_query_weight_to_fee, api_query_length_to_fee, api_query_call_info,
  api_query_call_fee_details, call_api_query_weight_to_fee, call_api_query_length_to_fee,
}
use testchain.RuntimeApi.Quotes.{total, IsPayment, fee_of, quotes_lem}

-- The weight of a call, cut off at two seconds.
abbrev cap : ℕ × ℕ → ℕ × ℕ
cap w = (min w.0 2_000_000_000_000, w.1)

-- A call is its time, and pays where that is not 7; a state is the multiplier.
abbrev pays : ℕ → Bool
pays call = if call == 7 then false else true

abbrev details : FeeConfig weights → ℕ → ℕ → ℕ → FeeDetails
details f call len s = record {
  inclusion_fee =
      if pays call
      then some (record {
        base_fee = f.weight_to_fee (cap (1_000, 0));
        len_fee = f.length_to_fee len;
        adjusted_weight_fee =
            min u128_max (s * f.weight_to_fee (cap (call, 0)) / 1_000_000_000_000_000_000);
      })
      else none;
  tip = 0;
}

-- An extrinsic is whether it is signed, and its call.
abbrev details_of : FeeConfig weights → Bool × ℕ → ℕ → ℕ → FeeDetails
details_of f xt len s =
    if xt.0 then details f xt.1 len s else record { inclusion_fee = none; tip = 0 }

abbrev payment : PaymentPallet weights
payment = record {
  Extrinsic = Bool × ℕ;
  RuntimeCall = ℕ;
  Class = ℕ;
  State = ℕ;
  query_info = λ f xt len s. record {
    weight = (xt.1, 0);
    class = 0;
    partial_fee = total (details_of f xt len s);
  };
  query_fee_details = details_of;
  query_call_info = λ f call len s. record {
    weight = (call, 0);
    class = 0;
    partial_fee = total (details f call len s);
  };
  query_call_fee_details = details;
  weight_to_fee = λ f w. f.weight_to_fee (cap w);
  length_to_fee = λ f n. f.length_to_fee n;
}

abbrev payment-IsPayment : IsPayment weights limits payment
unfolding runtime_block_weights
payment-IsPayment = record {
  call_of = λ xt. xt.1;
  is_signed = λ xt. xt.0;
  weight_of = λ call. (call, 0);
  class_of = λ call. 0;
  pays = pays;
  base_weight = λ class. (1_000, 0);
  cap = cap;
  multiplier = λ s. s;
  ref_time-cap = λ w. refl;
  weight_to_fee_lem = λ f w. refl;
  length_to_fee_lem = λ f n. refl;
  query_call_fee_details_lem = λ f call len s. refl;
  query_call_info_lem = λ f call len s. refl;
  query_fee_details_lem = λ f xt len s. refl;
  query_info_lem = λ f xt len s. refl;
}

-- A signed call of a millisecond, in 120 bytes.
abbrev fee : FeeDetails
fee =
    fee_of weights limits payment weights-IsLawful limits-IsLimits payment-IsPayment 1_000_000_000
      120

multiplier_example : fee_multiplier ≡ (fee_config weights).update_multiplier 5
unfolding fee_config
multiplier_example = refl

quotes_lem_example :
    (api_query_call_fee_details weights payment 1_000_000_000 120 fee_multiplier ≡ fee)
    × ((api_query_call_info weights payment 1_000_000_000 120 fee_multiplier).partial_fee
        ≡ total fee)
    × (api_query_fee_details weights payment (true, 1_000_000_000) 120 fee_multiplier
        ≡ (if true then fee else record { inclusion_fee = none; tip = 0 }))
    × ((api_query_info weights payment (true, 1_000_000_000) 120 fee_multiplier).partial_fee
        ≡ (if true then total fee else 0))
    × (api_query_weight_to_fee weights payment (3, 4) ≡ 3)
    × (call_api_query_weight_to_fee weights payment (3, 4) ≡ 3)
    × (api_query_length_to_fee weights payment 120 ≡ 120)
    × (call_api_query_length_to_fee weights payment 120 ≡ 120)
unfolding payment-IsPayment
quotes_lem_example =
    quotes_lem weights limits payment weights-IsLawful limits-IsLimits payment-IsPayment
      (true, 1_000_000_000) 120 5 fee_multiplier (3, 4) multiplier_example
