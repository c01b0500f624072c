-- ===== src/Template/Journal.antt =====
-- The events of pallets/template/src/lib.rs: what a block deposits, read off its calls alone.
use testchain.Base.{ℕ, List, [], ◌∷◌, ◌≡◌, refl, sym, ap, ◌∙◌, arith}
use testchain.Base.Result.{Result, ok, err}
use testchain.Template.Defs.{
  Frame, Storage, Event, something_stored, DispatchError, do_something, cause_error,
}
use testchain.Template.Calls.{Call, call_cause_error, call_do_something, dispatch, run}

module _ (F : Frame) where
  open F use {Origin, AccountId, System, ensure_signed, deposit_event}

  abbrev announce :
      Result DispatchError AccountId → ℕ → List (Event AccountId) → List (Event AccountId)
  announce (err e) something rest = rest
  announce (ok who) something rest = something_stored something who ∷ rest

  -- The events that a block is to deposit: one for each signed `do_something`, with its value and
  -- its signer, in the order of the calls.
  abbrev pub journal : List (Origin × Call) → List (Event AccountId)
  journal [] = []
  journal ((origin, call_do_something something) ∷ cs) =
      announce (ensure_signed origin) something (journal cs)
  journal ((origin, call_cause_error) ∷ cs) = journal cs

  abbrev pub deposit_all : List (Event AccountId) → System → System
  deposit_all [] system = system
  deposit_all (event ∷ events) system = deposit_all events (deposit_event event system)

  do_something_system :
      (origin : Origin) (n : ℕ) (s : Storage F) (rest : List (Event AccountId))
      → deposit_all (announce (ensure_signed origin) n rest) s.system
        ≡ deposit_all rest (do_something F origin n s).1.system
  unfolding do_something
  do_something_system origin n s rest = ground arith

  cause_error_system :
      (origin : Origin) (s : Storage F) → (cause_error F origin s).1.system ≡ s.system
  unfolding cause_error
  cause_error_system origin s = ground arith

  -- A block deposits the events of its journal, in order, and nothing else: what `cause_error`
  -- answers, and what is stored, has no part in it.
  pub run-journal :
      (cs : List (Origin × Call)) (s : Storage F)
      → (run F cs s).system ≡ deposit_all (journal cs) s.system
  unfolding run dispatch
  run-journal [] s = refl
  run-journal ((origin, call_do_something n) ∷ cs) s =
      run-journal cs (do_something F origin n s).1
      ∙ sym (do_something_system origin n s (journal cs))
  run-journal ((origin, call_cause_error) ∷ cs) s =
      run-journal cs (cause_error F origin s).1
      ∙ ap (deposit_all (journal cs)) (cause_error_system origin s)
