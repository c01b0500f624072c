-- ===== src/Template/Counter.antt =====
-- `cause_error` of pallets/template/src/lib.rs as a counter.
use testchain.Base.{ℕ, ◌+◌, ◌≤◌, min, some, List, [], ◌∷◌, ◌≡◌, ap, map, length, All, arith}
use testchain.Base.Words.{u32_max}
use testchain.Base.Result.{ok}
use testchain.Template.Defs.{Frame, Storage, cause_error}
use testchain.Template.Calls.{Call, call_cause_error, dispatch, run}

module _ (F : Frame) where
  open F use {Origin, AccountId, System, ensure_signed, deposit_event}

  abbrev pub IsSigned : Origin → Type 0
  IsSigned origin = (who : AccountId) × (ensure_signed origin ≡ ok who)

  -- A block with one `cause_error` for each origin.
  abbrev pub increments : List Origin → List (Origin × Call)
  increments = map (λ origin. (origin, call_cause_error))

  cause_error_step :
      (origin : Origin) (s : Storage F) (old : ℕ)
      → IsSigned origin
      → s.something ≡ some old
      → old ≤ u32_max
      → (cause_error F origin s).1 ≡ record s { something = some (min (old + 1) u32_max) }
  unfolding cause_error
  cause_error_step origin s old (who, e) h le = ground arith

  -- From a stored value, signed `cause_error` calls add one each, up to the largest `u32`, where the
  -- value stays. They deposit no event.
  pub run-increments :
      (origins : List Origin) (s : Storage F) (old : ℕ)
      → All IsSigned origins
      → s.something ≡ some old
      → old ≤ u32_max
      → run F (increments origins) s
        ≡ record s { something = some (min (old + length origins) u32_max) }
  unfolding run dispatch
  run-increments [] s old signed h le = ground arith
  run-increments (origin ∷ origins) s old ((who, e), signed) h le =
      let t = (cause_error F origin s).1 in
      let step = cause_error_step origin s old (who, e) h le in
      let stored = ap (λ (u : Storage F). u.something) step in
      let rest = run-increments origins t (min (old + 1) u32_max) signed stored (omega arith) in
      ground (arith, step, rest)
