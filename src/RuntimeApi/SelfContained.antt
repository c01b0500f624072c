-- ===== src/RuntimeApi/SelfContained.antt =====
-- The hooks of `SelfContainedCall` in runtime/src/apis.rs, compared.
use testchain.Base.{Bool, true, false, ◌≡◌, refl, is_some, ℕ, arith}
use testchain.RuntimeApi.Calls.{
  Frontier, EthereumCall, transact, other_ethereum, RuntimeCall, ethereum, other, Hooks,
  runtime_is_self_contained, runtime_check_self_contained, runtime_validate_self_contained,
  runtime_pre_dispatch_self_contained, runtime_apply_self_contained,
}

module _ (F : Frontier) where
  abbrev pub is_transact : EthereumCall F → Bool
  is_transact (transact transaction) = true
  is_transact (other_ethereum call) = false

  -- The documented behaviour of `pallet_ethereum`: its self-contained calls are the `transact`
  -- calls, and for those and no others its three checks have an answer.
  pub record IsFrontier (H : Hooks F) : Type 0 where
    pub self_contained : (call : EthereumCall F) → H.is_self_contained call ≡ is_transact call
    pub check :
        (call : EthereumCall F) (s : F.State)
        → is_some (H.check_self_contained call s) ≡ is_transact call
    pub validate :
        (call : EthereumCall F) (info : F.SignedInfo) (d : F.DispatchInfo) (len : ℕ) (s : F.State)
        → is_some (H.validate_self_contained call info d len s) ≡ is_transact call
    pub pre_dispatch :
        (call : EthereumCall F) (info : F.SignedInfo) (d : F.DispatchInfo) (len : ℕ) (s : F.State)
        → is_some (H.pre_dispatch_self_contained call info d len s) ≡ is_transact call

module _ (F : Frontier) (H : Hooks F) where
  -- Where `pallet_ethereum` keeps its documented behaviour, the five hooks agree on every runtime
  -- call: a call that is self-contained is checked, validated, pre-dispatched and applied, and a call
  -- that is not gets no answer from any hook.
  pub self_contained_hooks :
      IsFrontier F H
      → (call : RuntimeCall F) (info : F.SignedInfo) (d : F.DispatchInfo) (len : ℕ) (s : F.State)
      → let b = runtime_is_self_contained F H call in
        (is_some (runtime_check_self_contained F H call s) ≡ b)
        × (is_some (runtime_validate_self_contained F H call info d len s) ≡ b)
        × (is_some (runtime_pre_dispatch_self_contained F H call info d len s) ≡ b)
        × (is_some (runtime_apply_self_contained F H call info s).0 ≡ b)
  unfolding runtime_is_self_contained runtime_check_self_contained runtime_validate_self_contained
      runtime_pre_dispatch_self_contained runtime_apply_self_contained
  self_contained_hooks L (ethereum (transact t)) info d len s =
      let call : EthereumCall F = transact t in
      ground (
        arith,
        L.self_contained call,
        L.check call s,
        L.validate call info d len s,
        L.pre_dispatch call info d len s,
      )
  self_contained_hooks L (ethereum (other_ethereum c)) info d len s =
      let call : EthereumCall F = other_ethereum c in
      ground (
        arith,
        L.self_contained call,
        L.check call s,
        L.validate call info d len s,
        L.pre_dispatch call info d len s,
      )
  self_contained_hooks L (other c) info d len s = (refl, refl, refl, refl)
