-- ===== src/Node/Startup.antt =====
-- The shape of the functions of node/src/service.rs: a chain of calls that stops at the first
-- failure. A run gives the calls made, in order, beside its value or its failure.
use testchain.Base.{Option, none, some, List, [], ◌∷◌, ◌++◌}
use testchain.Base.Result.{Result, ok, err}
use testchain.Node.Calls.{Request, Action, Call, asked, did}

-- How a run stops: with the `ServiceError` that `?` returns, or by a panic.
pub data Failure (E : Type 0) : Type 0 where
  service_error : E → Failure E
  panicked : E → Failure E

abbrev pub Run : Type 0 → Type 0 → Type 0
Run E A = List Call × Result (Failure E) A

module _ {E : Type 0} where
  abbrev pub after : {B : Type 0} → List Call → Run E B → Run E B
  after before (calls, r) = (before ++ calls, r)

  infixl 5 ◌>>=◌ ◌>>◌
  abbrev pub ◌>>=◌ : {A B : Type 0} → Run E A → (A → Run E B) → Run E B
  (calls, ok a) >>= f = after calls (f a)
  (calls, err e) >>= f = (calls, err e)

  abbrev pub ◌>>◌ : {A B : Type 0} → Run E A → Run E B → Run E B
  m >> k = m >>= λ _. k

  abbrev pub return : {A : Type 0} → A → Run E A
  return a = ([], ok a)

  abbrev pub answered : Option E → (E → Failure E) → Result (Failure E) (Unit {0})
  answered none fail = ok tt
  answered (some e) fail = err (fail e)

-- `fails` is what the crates under the node answer to each request.
module _ {E : Type 0} (fails : Request → Option E) where
  -- `request?`
  unfoldable pub attempt : Request → Run E (Unit {0})
  attempt q = (asked q ∷ [], answered (fails q) service_error)

  -- `request.expect(…)`, `unwrap_or_else(|err| panic!(…))`
  unfoldable pub expect : Request → Run E (Unit {0})
  expect q = (asked q ∷ [], answered (fails q) panicked)

  -- A request whose answer the code matches on.
  unfoldable pub ask : Request → Run E (Option E)
  ask q = (asked q ∷ [], ok (fails q))

module _ {E : Type 0} where
  unfoldable pub perform : Action → Run E (Unit {0})
  perform a = (did a ∷ [], ok tt)

  -- `return Err(…)`, `panic!(…)`
  unfoldable pub stop : {A : Type 0} → Failure E → Run E A
  stop f = ([], err f)
