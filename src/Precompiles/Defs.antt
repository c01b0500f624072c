-- ===== src/Precompiles/Defs.antt =====
-- runtime/src/configs/precompiles.rs: the set of precompiled contracts of the EVM.
use testchain.Base.{ℕ, Bool, true, false, ◌||◌, Option, none, some, List, [], ◌∷◌}
use mathlib.Core.Logic.{ite}

-- The contracts whose `execute` the set calls.
pub data Builtin : Type 0 where
  ec_recover sha256 ripemd160 identity modexp sha3_fips256 ec_recover_public_key : Builtin

-- `H160` with its `from_low_u64_be` and equality; the call handle, which an execution changes, and
-- the code of the precompiles.
pub record Evm : Type 1 where
  pub H160 : Type 0
  pub Handle : Type 0
  pub PrecompileResult : Type 0
  pub from_low_u64_be : ℕ → H160
  pub eq : Discrete H160
  pub code_address : Handle → H160
  pub run : Builtin → Handle → PrecompileResult × Handle

-- `enum IsPrecompileResult`; the source makes only answers.
pub data IsPrecompileResult : Type 0 where
  answer : Bool → ℕ → IsPrecompileResult

module _ (E : Evm) where
  open E use {H160, Handle, PrecompileResult, from_low_u64_be, eq, code_address, run}

  -- `fn hash`
  abbrev pub hash : ℕ → H160
  hash a = from_low_u64_be a

  -- `used_addresses`
  unfoldable pub used_addresses : List H160
  used_addresses = hash 1 ∷ hash 2 ∷ hash 3 ∷ hash 4 ∷ hash 5 ∷ hash 1024 ∷ hash 1025 ∷ []

  abbrev pub contains : List H160 → H160 → Bool
  contains [] address = false
  contains (x ∷ xs) address = ite (eq x address) true false || contains xs address

  -- `Some(X::execute(handle))`
  abbrev pub call : Builtin → Handle → Option PrecompileResult × Handle
  call b handle = let (result, handle') = run b handle in (some result, handle')

  -- `execute`: the arms of the match in their order.
  unfoldable pub execute : Handle → Option PrecompileResult × Handle
  execute handle =
      let a = code_address handle in
      ite (eq a (hash 1)) (call ec_recover handle) (
        ite (eq a (hash 2)) (call sha256 handle) (
          ite (eq a (hash 3)) (call ripemd160 handle) (
            ite (eq a (hash 4)) (call identity handle) (
              ite (eq a (hash 5)) (call modexp handle) (
                ite (eq a (hash 1024)) (call sha3_fips256 handle)
                  (ite (eq a (hash 1025)) (call ec_recover_public_key handle) (none, handle)))))))

  -- `is_precompile`; the gas is not used.
  unfoldable pub is_precompile : H160 → ℕ → IsPrecompileResult
  is_precompile address gas = answer (contains used_addresses address) 0
