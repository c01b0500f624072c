-- ===== src/Node/Every.antt =====
-- What holds of every call that a run makes, whether it ends well or fails.
use testchain.Base.{Option, List, [], ◌∷◌, All, All-append}
use testchain.Base.Result.{ok, err}
use testchain.Node.Calls.{Request, Action, Call, asked, did}
use testchain.Node.Startup.{
  Run, Failure, after, ◌>>=◌, ◌>>◌, return, attempt, expect, ask, perform, stop,
}

module _ (E : Type 0) (P : Call → Type 0) where
  -- Every call of the run has the property.
  unfoldable pub Every : {A : Type 0} → Run E A → Type 0
  Every m = All P m.0

  after-Every :
      {A : Type 0} (before : List Call) (m : Run E A)
      → All P before
      → Every m
      → Every (after before m)
  unfolding Every
  after-Every before (calls, r) h k = All-append P before calls h k

  pub bind-Every :
      {A B : Type 0} (m : Run E A) (f : A → Run E B)
      → Every m
      → ((a : A) → Every (f a))
      → Every (m >>= f)
  unfolding Every
  bind-Every (calls, ok a) f h k = after-Every calls (f a) h (k a)
  bind-Every (calls, err e) f h k = h

  pub then-Every : {A B : Type 0} (m : Run E A) (k : Run E B) → Every m → Every k → Every (m >> k)
  then-Every m k h j = bind-Every m (λ _. k) h (λ _. j)

  pub return-Every : {A : Type 0} (a : A) → Every (return a)
  unfolding Every
  return-Every a = tt

  pub perform-Every : (a : Action) → P (did a) → Every (perform a)
  unfolding Every perform
  perform-Every a h = (h, tt)

  pub attempt-Every :
      (fails : Request → Option E) (q : Request) → P (asked q) → Every (attempt fails q)
  unfolding Every attempt
  attempt-Every fails q h = (h, tt)

  pub expect-Every :
      (fails : Request → Option E) (q : Request) → P (asked q) → Every (expect fails q)
  unfolding Every expect
  expect-Every fails q h = (h, tt)

  pub ask-Every : (fails : Request → Option E) (q : Request) → P (asked q) → Every (ask fails q)
  unfolding Every ask
  ask-Every fails q h = (h, tt)

  pub stop-Every : (A : Type 0) (f : Failure E) → Every (stop {A = A} f)
  unfolding Every stop
  stop-Every A f = tt

module _ (E : Type 0) (P Q : Call → Type 0) (implies : (c : Call) → P c → Q c) where
  All-implies : (calls : List Call) → All P calls → All Q calls
  All-implies [] h = tt
  All-implies (c ∷ calls) h = (implies c h.0, All-implies calls h.1)

  pub Every-implies : {A : Type 0} (m : Run E A) → Every E P m → Every E Q m
  unfolding Every
  Every-implies m h = All-implies m.0 h

module _ (E : Type 0) {A : Type 0} (P : A → Type 0) where
  -- What holds of the value of a run that ends well.
  unfoldable pub Yields : Run E A → Type 0
  Yields (calls, ok a) = P a
  Yields (calls, err e) = Unit

  after-Yields : (before : List Call) (m : Run E A) → Yields m → Yields (after before m)
  unfolding Yields
  after-Yields before (calls, ok a) h = h
  after-Yields before (calls, err e) h = tt

  pub return-Yields : (a : A) → P a → Yields (return a)
  unfolding Yields
  return-Yields a h = h

module _ (E : Type 0) {A B : Type 0} (P : A → Type 0) (Q : B → Type 0) where
  pub bind-Yields :
      (m : Run E A) (f : A → Run E B)
      → Yields E P m
      → ((a : A) → P a → Yields E Q (f a))
      → Yields E Q (m >>= f)
  unfolding Yields
  bind-Yields (calls, ok a) f h k = after-Yields E Q calls (f a) (k a h)
  bind-Yields (calls, err e) f h k = tt

module _ (E : Type 0) {A B : Type 0} (P : A → Type 0) where
  pub then-Yields : (m : Run E B) (k : Run E A) → Yields E P k → Yields E P (m >> k)
  unfolding Yields
  then-Yields (calls, ok b) k h = after-Yields E P calls k h
  then-Yields (calls, err e) k h = tt

module _ (E : Type 0) (P : Call → Type 0) {A B : Type 0} (Q : A → Type 0) where
  -- What follows a run whose value is known.
  pub value-Every :
      (m : Run E A) (f : A → Run E B)
      → Every E P m
      → Yields E Q m
      → ((a : A) → Q a → Every E P (f a))
      → Every E P (m >>= f)
  unfolding Every Yields
  value-Every (calls, ok a) f h v k = after-Every E P calls (f a) h (k a v)
  value-Every (calls, err e) f h v k = h
