-- ===== src/Template/Benchmarks.antt =====
-- pallets/template/src/benchmarking.rs: the two benchmarks with the assertions they end with.
use testchain.Base.{ℕ, Bool, true, false, ◌==◌, ◌&&◌, Option, none, some, ◌≡◌, refl}
use testchain.Base.Result.{Result, ok, err}
use testchain.Template.Defs.{Frame, Storage, put, do_something, cause_error}

-- `assert_eq!` on the stored value.
abbrev pub is_stored : Option ℕ → ℕ → Bool
is_stored none n = false
is_stored (some m) n = m == n

-- `#[extrinsic_call]`, which unwraps the result.
abbrev pub is_ok : {E A : Type 0} → Result E A → Bool
is_ok (ok a) = true
is_ok (err e) = false

module _ (F : Frame) where
  open F use {Origin, AccountId}

  -- `do_something`, with `RawOrigin::Signed` and the caller: whether it passes, and what it leaves.
  unfoldable pub benchmark_do_something :
      (AccountId → Origin) → AccountId → Storage F → Bool × Storage F
  benchmark_do_something signed whitelisted_caller s =
      let value : ℕ = 100 in
      let (result, s') = do_something F (signed whitelisted_caller) value s in
      (is_ok result && is_stored s'.something value, s')

  -- `cause_error`
  unfoldable pub benchmark_cause_error :
      (AccountId → Origin) → AccountId → Storage F → Bool × Storage F
  benchmark_cause_error signed whitelisted_caller s =
      let s₁ = put F 100 s in
      let (result, s') = cause_error F (signed whitelisted_caller) s₁ in
      (is_ok result && is_stored s'.something 101, s')

  -- Both benchmarks of the pallet pass in every state of the chain and for every caller, if
  -- `ensure_signed` lets a signed caller through; they leave 100 and 101 stored.
  benchmarks_lem :
      (signed : AccountId → Origin) (caller : AccountId)
      → F.ensure_signed (signed caller) ≡ ok caller
      → (s : Storage F)
      → ((benchmark_do_something signed caller s).0 ≡ true)
        × ((benchmark_do_something signed caller s).1.something ≡ some 100)
        × ((benchmark_cause_error signed caller s).0 ≡ true)
        × ((benchmark_cause_error signed caller s).1.something ≡ some 101)
  unfolding benchmark_do_something benchmark_cause_error do_something cause_error
  benchmarks_lem signed caller h s = (
    rw (do_something, h) refl,
    rw (do_something, h) refl,
    rw (cause_error, h) refl,
    rw (cause_error, h) refl,
  )
