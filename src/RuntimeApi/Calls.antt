-- ===== src/RuntimeApi/Calls.antt =====
-- runtime/src/apis.rs, lines 79 to 159 and 746 to 752: Ethereum transactions as extrinsics of the
-- runtime, and the hooks of `SelfContainedCall`.
use testchain.Base.{ℕ, Bool, false, Option, none, some}
use testchain.Base.Result.{Result}

-- The pallet `pallet_ethereum`, the dispatch of a call, and the other pallets' calls.
pub record Frontier : Type 1 where
  pub Transaction : Type 0
  pub OtherEthereumCall : Type 0
  pub OtherCall : Type 0
  pub SignedInfo : Type 0
  pub DispatchInfo : Type 0
  pub Validity : Type 0
  pub ValidityError : Type 0
  pub DispatchResult : Type 0
  pub State : Type 0

module _ (F : Frontier) where
  open F use {Transaction, OtherEthereumCall, OtherCall, SignedInfo}

  -- `pallet_ethereum::Call`, of which the source names the variant `transact`.
  pub data EthereumCall : Type 0 where
    transact : Transaction → EthereumCall
    other_ethereum : OtherEthereumCall → EthereumCall

module _ (F : Frontier) where
  open F use {Transaction, OtherEthereumCall, OtherCall, SignedInfo}

  -- `RuntimeCall`, of which the source names the variant `Ethereum`.
  pub data RuntimeCall : Type 0 where
    ethereum : EthereumCall F → RuntimeCall
    other : OtherCall → RuntimeCall

  -- `RuntimeOrigin`: the origin that the source makes.
  pub data Origin : Type 0 where
    ethereum_transaction : SignedInfo → Origin

module _ (F : Frontier) where
  open F use {Transaction, SignedInfo, DispatchInfo, Validity, ValidityError, DispatchResult, State}

  -- What `pallet_ethereum` and the dispatch do.
  pub record Hooks : Type 0 where
    pub is_self_contained : EthereumCall F → Bool
    pub check_self_contained : EthereumCall F → State → Option (Result ValidityError SignedInfo)
    pub validate_self_contained :
        EthereumCall F
        → SignedInfo
        → DispatchInfo
        → ℕ
        → State
        → Option (Result ValidityError Validity)
    pub pre_dispatch_self_contained :
        EthereumCall F
        → SignedInfo
        → DispatchInfo
        → ℕ
        → State
        → Option (Result ValidityError (Unit {0}))
    pub dispatch : RuntimeCall F → Origin F → State → DispatchResult × State

  module _ (H : Hooks) where
    open H use {
      is_self_contained, check_self_contained, validate_self_contained, pre_dispatch_self_contained,
      dispatch,
    }

    -- `is_self_contained`
    unfoldable pub runtime_is_self_contained : RuntimeCall F → Bool
    runtime_is_self_contained (ethereum call) = is_self_contained call
    runtime_is_self_contained (other call) = false

    -- `check_self_contained`
    unfoldable pub runtime_check_self_contained :
        RuntimeCall F → State → Option (Result ValidityError SignedInfo)
    runtime_check_self_contained (ethereum call) s = check_self_contained call s
    runtime_check_self_contained (other call) s = none

    -- `validate_self_contained`
    unfoldable pub runtime_validate_self_contained :
        RuntimeCall F
        → SignedInfo
        → DispatchInfo
        → ℕ
        → State
        → Option (Result ValidityError Validity)
    runtime_validate_self_contained (ethereum call) info dispatch_info len s =
        validate_self_contained call info dispatch_info len s
    runtime_validate_self_contained (other call) info dispatch_info len s = none

    -- `pre_dispatch_self_contained`
    unfoldable pub runtime_pre_dispatch_self_contained :
        RuntimeCall F
        → SignedInfo
        → DispatchInfo
        → ℕ
        → State
        → Option (Result ValidityError (Unit {0}))
    runtime_pre_dispatch_self_contained (ethereum call) info dispatch_info len s =
        pre_dispatch_self_contained call info dispatch_info len s
    runtime_pre_dispatch_self_contained (other call) info dispatch_info len s = none

    -- `apply_self_contained`
    unfoldable pub runtime_apply_self_contained :
        RuntimeCall F → SignedInfo → State → Option DispatchResult × State
    runtime_apply_self_contained (ethereum (transact transaction)) info s =
        let (result, s') =
          dispatch (ethereum (transact transaction)) (ethereum_transaction info) s in
        (some result, s')
    runtime_apply_self_contained (ethereum (other_ethereum call)) info s = (none, s)
    runtime_apply_self_contained (other call) info s = (none, s)
