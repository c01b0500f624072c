-- ===== src/Template/Calls.antt =====
-- The dispatchables of pallets/template/src/lib.rs as the `Call` enum that `#[pallet::call]` makes
-- of them, and calls dispatched one after the other.
use testchain.Base.{ℕ, List, [], ◌∷◌, ◌≡◌, arith}
use testchain.Base.Result.{Result, err}
use testchain.Template.Defs.{Frame, Storage, DispatchError, do_something, cause_error}

-- `enum Call`
pub data Call : Type 0 where
  call_do_something : ℕ → Call
  call_cause_error : Call

-- `#[pallet::call_index]`
abbrev pub call_index : Call → ℕ
call_index (call_do_something something) = 0
call_index call_cause_error = 1

module _ (F : Frame) where
  open F use {Origin, AccountId, System, ensure_signed, deposit_event}

  unfoldable pub dispatch : Call → Origin → Storage F → Result DispatchError (Unit {0}) × Storage F
  dispatch (call_do_something something) origin s = do_something F origin something s
  dispatch call_cause_error origin s = cause_error F origin s

  -- Extrinsics in the order of a block; one that fails does not stop those behind it.
  unfoldable pub run : List (Origin × Call) → Storage F → Storage F
  run [] s = s
  run ((origin, c) ∷ cs) s = run cs (dispatch c origin s).1

  -- A call that returns an error leaves the storage and the events as they were.
  dispatch-noop :
      (c : Call) (origin : Origin) (s : Storage F) {e : DispatchError}
      → (dispatch c origin s).0 ≡ err e
      → (dispatch c origin s).1 ≡ s
  unfolding dispatch do_something cause_error
  dispatch-noop (call_do_something n) origin s h = ground arith
  dispatch-noop call_cause_error origin s h = ground arith
