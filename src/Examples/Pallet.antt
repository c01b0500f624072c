-- ===== src/Examples/Pallet.antt =====
-- The template pallet over a list of events, weights as pairs of numbers, and the EVM's precompiles
-- over numbers as addresses.
use testchain.Base.{
  ℕ, ◌+◌, ◌*◌, ◌≤◌, min, Option, none, some, List, [], ◌∷◌, ◌≡◌, refl, is_some, ℕ_discrete, arith,
}
use testchain.Base.Words.{u32_max, u64_max, saturating_add}
use testchain.Base.Result.{Result, ok, err}
use testchain.Weight.{WeightOps, IsLawful}
use testchain.Template.Defs.{Frame, Event, DispatchError, bad_origin, Storage}
use testchain.Template.Calls.{Call, call_do_something, call_cause_error, run}
use testchain.Template.Counter.{increments, run-increments}
use testchain.Template.Journal.{journal, deposit_all, run-journal}
use testchain.Template.Weights.{substrate_weight, call_weight, call_weight_bounds}
use testchain.Precompiles.Defs.{Evm, execute, is_precompile, answer}
use testchain.Precompiles.Answers.{is_precompile-execute}

abbrev signer : Option ℕ → Result DispatchError ℕ
signer none = err bad_origin
signer (some who) = ok who

abbrev frame : Frame
frame = record {
  Origin = Option ℕ;
  AccountId = ℕ;
  System = List (Event ℕ);
  ensure_signed = signer;
  deposit_event = λ e events. e ∷ events;
}

abbrev stored : Option ℕ → Storage frame
stored value = record { something = value; system = [] }

abbrev batch : List (Option ℕ × Call)
batch =
    (some 1, call_do_something 41) ∷ (none, call_do_something 5) ∷ (some 2, call_cause_error) ∷ []

run-increments_example :
    run frame (increments frame (some 1 ∷ some 2 ∷ [])) (stored (some u32_max))
    ≡ stored (some (min (u32_max + 2) u32_max))
run-increments_example =
    run-increments frame (some 1 ∷ some 2 ∷ []) (stored (some u32_max)) u32_max
      ((1, refl), ((2, refl), tt)) refl (omega arith)

run-journal_example :
    (run frame batch (stored none)).system ≡ deposit_all frame (journal frame batch) []
run-journal_example = run-journal frame batch (stored none)

abbrev weights : WeightOps
weights = record {
  Weight = ℕ × ℕ;
  DbWeight = ℕ × ℕ;
  from_parts = λ r p. (r, p);
  ref_time = λ w. w.0;
  proof_size = λ w. w.1;
  saturating_add_weight = λ v w. (saturating_add u64_max v.0 w.0, saturating_add u64_max v.1 w.1);
  reads = λ db n. (db.0 * n, 0);
  writes = λ db n. (db.1 * n, 0);
}

abbrev weights-IsLawful : IsLawful weights
weights-IsLawful = record {
  ref_time-from_parts = λ r p hr hp. refl;
  proof_size-from_parts = λ r p hr hp. refl;
  ref_time-saturating_add = λ v w. refl;
  proof_size-saturating_add = λ v w. refl;
}

abbrev paid : ℕ × ℕ
paid = call_weight weights (substrate_weight weights (25_000_000, 100_000_000)) call_cause_error

call_weight_bounds_example :
    (paid.0 ≤ u64_max) × (min (6_000_000 + 100_000_000 * 1) u64_max ≤ paid.0) × (1489 ≤ paid.1)
call_weight_bounds_example =
    call_weight_bounds weights weights-IsLawful (25_000_000, 100_000_000) call_cause_error

-- A handle is an address and a count of runs.
abbrev evm : Evm
evm = record {
  H160 = ℕ;
  Handle = ℕ × ℕ;
  PrecompileResult = ℕ;
  from_low_u64_be = λ n. n;
  eq = ℕ_discrete;
  code_address = λ handle. handle.0;
  run = λ b handle. (handle.0, (handle.0, handle.1 + 1));
}

is_precompile-execute_example :
    is_precompile evm 1024 7 ≡ answer (is_some (execute evm (1024, 0)).0) 0
is_precompile-execute_example = is_precompile-execute evm (1024, 0) 7
