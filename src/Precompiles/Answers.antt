-- ===== src/Precompiles/Answers.antt =====
-- `execute` and `is_precompile` of runtime/src/configs/precompiles.rs, compared.
use testchain.Base.{ℕ, none, ◌≡◌, ◌≢◌, ◌≤◌, is_some, arith}
use testchain.Base.Words.{u64_max}
use testchain.Precompiles.Defs.{
  Evm, Builtin, ec_recover, sha256, ripemd160, identity, modexp, sha3_fips256,
  ec_recover_public_key, answer, hash, used_addresses, call, execute, is_precompile,
}

module _ (E : Evm) where
  open E use {H160, Handle, PrecompileResult, from_low_u64_be, eq, code_address, run}

  -- The list of addresses and the arms of the match name the same contracts: for every handle and
  -- any gas, `is_precompile` answers yes, at no extra cost, exactly when `execute` gives a result.
  pub is_precompile-execute :
      (handle : Handle) (gas : ℕ)
      → is_precompile E (code_address handle) gas ≡ answer (is_some (execute E handle).0) 0
  unfolding is_precompile execute used_addresses
  is_precompile-execute handle gas = ground arith

  -- A call to an address that is no precompile leaves the handle as it was.
  pub execute-none : (handle : Handle) → (execute E handle).0 ≡ none → (execute E handle).1 ≡ handle
  unfolding execute
  execute-none handle h = ground arith

  -- The seven addresses and the contract behind each.
  pub data Assigned : ℕ → Builtin → Type 0 where
    at_1 : Assigned 1 ec_recover
    at_2 : Assigned 2 sha256
    at_3 : Assigned 3 ripemd160
    at_4 : Assigned 4 identity
    at_5 : Assigned 5 modexp
    at_1024 : Assigned 1024 sha3_fips256
    at_1025 : Assigned 1025 ec_recover_public_key

  -- `from_low_u64_be` gives different addresses for different `u64` values.
  abbrev pub KeepsApart : Type 0
  KeepsApart = (a b : ℕ) → a ≤ u64_max → b ≤ u64_max → a ≢ b → hash E a ≢ hash E b

  -- Where `from_low_u64_be` keeps different `u64` values apart, no arm of the match hides a later
  -- one: a call to an assigned address runs its contract, with the handle that it leaves.
  execute-Assigned :
      KeepsApart
      → {n : ℕ} {b : Builtin} → Assigned n b
      → (handle : Handle) → code_address handle ≡ hash E n
      → execute E handle ≡ call E b handle
  unfolding execute
  execute-Assigned apart at_1 handle e = ground (arith)
  execute-Assigned apart at_2 handle e =
      ground (arith, apart 1 2 (omega arith) (omega arith) (omega arith))
  execute-Assigned apart at_3 handle e = ground (
    arith,
    apart 1 3 (omega arith) (omega arith) (omega arith),
    apart 2 3 (omega arith) (omega arith) (omega arith),
  )
  execute-Assigned apart at_4 handle e = ground (
    arith,
    apart 1 4 (omega arith) (omega arith) (omega arith),
    apart 2 4 (omega arith) (omega arith) (omega arith),
    apart 3 4 (omega arith) (omega arith) (omega arith),
  )
  execute-Assigned apart at_5 handle e = ground (
    arith,
    apart 1 5 (omega arith) (omega arith) (omega arith),
    apart 2 5 (omega arith) (omega arith) (omega arith),
    apart 3 5 (omega arith) (omega arith) (omega arith),
    apart 4 5 (omega arith) (omega arith) (omega arith),
  )
  execute-Assigned apart at_1024 handle e = ground (
    arith,
    apart 1 1024 (omega arith) (omega arith) (omega arith),
    apart 2 1024 (omega arith) (omega arith) (omega arith),
    apart 3 1024 (omega arith) (omega arith) (omega arith),
    apart 4 1024 (omega arith) (omega arith) (omega arith),
    apart 5 1024 (omega arith) (omega arith) (omega arith),
  )
  execute-Assigned apart at_1025 handle e = ground (
    arith,
    apart 1 1025 (omega arith) (omega arith) (omega arith),
    apart 2 1025 (omega arith) (omega arith) (omega arith),
    apart 3 1025 (omega arith) (omega arith) (omega arith),
    apart 4 1025 (omega arith) (omega arith) (omega arith),
    apart 5 1025 (omega arith) (omega arith) (omega arith),
    apart 1024 1025 (omega arith) (omega arith) (omega arith),
  )
