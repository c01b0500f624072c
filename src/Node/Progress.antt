-- ===== src/Node/Progress.antt =====
-- Where a start of the node (node/src/service.rs) stops.
use testchain.Base.{
  ℕ, Bool, true, false, Option, none, some, List, [], ◌∷◌, ◌++◌, All, ◌≡◌, refl, sym,
}
use testchain.Base.Result.{ok, err}
use testchain.Base.{All-append}
use mathlib.Core.List.{append_assoc}
use testchain.Node.Config.{EthConfiguration, Configuration, Sealing, BackendType, key_value, sql}
use testchain.Node.Calls.{Request, Action, Call, asked, did}
use testchain.Node.Startup.{
  answered, Run, Failure, service_error, panicked, after, ◌>>=◌, ◌>>◌, return, attempt, expect,
  perform,
}
use testchain.Node.Partial.{
  start_worker, spawn_worker, open_backend, new_partial, build_babe_grandpa_import_queue,
}
use testchain.Node.Tasks.{spawn_frontier_tasks, run_manual_seal_authorship}
use testchain.Node.Full.{
  warp_sync_config, spawn_offchain, start_grandpa, start_common, start_consensus, new_full,
}

-- What a failure carries.
abbrev pub reason : {E : Type 0} → Failure E → E
reason (service_error e) = e
reason (panicked e) = e

module _ {E : Type 0} (fails : Request → Option E) where
  -- A call that was answered.
  abbrev IsAnswered : Call → Type 0
  IsAnswered (asked q) = fails q ≡ none
  IsAnswered (did a) = Unit

  -- A run that ended well was answered at each call; one that failed was answered at each call but
  -- the last, and failed with the answer to that.
  unfoldable pub IsFaithful : {A : Type 0} → Run E A → Type 0
  IsFaithful (calls, ok a) = All IsAnswered calls
  IsFaithful (calls, err f) =
      (before : List Call) × (q : Request) × (calls ≡ before ++ (asked q ∷ []))
      × All IsAnswered before
      × (fails q ≡ some (reason f))

  after-IsFaithful :
      {A : Type 0} (before : List Call) (m : Run E A)
      → All IsAnswered before
      → IsFaithful m
      → IsFaithful (after before m)
  unfolding IsFaithful
  after-IsFaithful before (calls, ok a) h k = All-append IsAnswered before calls h k
  after-IsFaithful before (calls, err f) h (some_before, q, e, all, fail) = (
    before ++ some_before,
    q,
    rw e (sym (append_assoc before some_before (asked q ∷ []))),
    All-append IsAnswered before some_before h all,
    fail,
  )

  bind-IsFaithful :
      {A B : Type 0} (m : Run E A) (f : A → Run E B)
      → IsFaithful m
      → ((a : A) → IsFaithful (f a))
      → IsFaithful (m >>= f)
  unfolding IsFaithful
  bind-IsFaithful (calls, ok a) f h k = after-IsFaithful calls (f a) h (k a)
  bind-IsFaithful (calls, err e) f h k = h

  return-IsFaithful : {A : Type 0} (a : A) → IsFaithful (return a)
  unfolding IsFaithful
  return-IsFaithful a = tt

  perform-IsFaithful : (a : Action) → IsFaithful (perform a)
  unfolding IsFaithful perform
  perform-IsFaithful a = (tt, tt)

  request-IsFaithful :
      (fail : E → Failure E) (q : Request) (o : Option E)
      → ((e : E) → reason (fail e) ≡ e)
      → fails q ≡ o
      → IsFaithful (asked q ∷ [], answered o fail)
  unfolding IsFaithful
  request-IsFaithful fail q none h e = (e, tt)
  request-IsFaithful fail q (some r) h e = ([], q, refl, tt, rw (h r) e)

  attempt-IsFaithful : (q : Request) → IsFaithful (attempt fails q)
  unfolding attempt
  attempt-IsFaithful q = request-IsFaithful service_error q (fails q) (λ e. refl) refl

  expect-IsFaithful : (q : Request) → IsFaithful (expect fails q)
  unfolding expect
  expect-IsFaithful q = request-IsFaithful panicked q (fails q) (λ e. refl) refl

  then-IsFaithful :
      {A B : Type 0} (m : Run E A) (k : Run E B) → IsFaithful m → IsFaithful k → IsFaithful (m >> k)
  then-IsFaithful m k h j = bind-IsFaithful m (λ _. k) h (λ _. j)

  ruleset faithful = (
    bind-IsFaithful, then-IsFaithful, return-IsFaithful, perform-IsFaithful, attempt-IsFaithful,
    expect-IsFaithful,
  )

  queue-IsFaithful :
      (eth_config : EthConfiguration)
      → IsFaithful (build_babe_grandpa_import_queue fails eth_config)
  unfolding build_babe_grandpa_import_queue
  queue-IsFaithful eth_config = search faithful

  start_worker-IsFaithful : (b : Bool) → IsFaithful (start_worker fails b)
  start_worker-IsFaithful true = search faithful
  start_worker-IsFaithful false = search faithful

  spawn_worker-IsFaithful : (b : Bool) → IsFaithful (spawn_worker fails b)
  spawn_worker-IsFaithful true = search faithful
  spawn_worker-IsFaithful false = search faithful

  open_backend-IsFaithful :
      (t : BackendType) (eth_config : EthConfiguration)
      → IsFaithful (open_backend fails t eth_config)
  open_backend-IsFaithful key_value eth_config = search faithful
  open_backend-IsFaithful sql eth_config = search faithful

  ruleset parts = (
    faithful, queue-IsFaithful, start_worker-IsFaithful, spawn_worker-IsFaithful,
    open_backend-IsFaithful,
  )

  partial-IsFaithful :
      (config : Configuration) (eth_config : EthConfiguration)
      → IsFaithful (new_partial fails config eth_config (build_babe_grandpa_import_queue fails))
  unfolding new_partial
  partial-IsFaithful config eth_config = search parts depth 12

  frontier-IsFaithful :
      (backend : BackendType) (filter_pool : Bool) (limit : ℕ)
      → IsFaithful (spawn_frontier_tasks backend filter_pool limit)
  unfolding spawn_frontier_tasks
  frontier-IsFaithful key_value true limit = search faithful
  frontier-IsFaithful key_value false limit = search faithful
  frontier-IsFaithful sql true limit = search faithful
  frontier-IsFaithful sql false limit = search faithful

  warp-IsFaithful : (sealing : Option Sealing) → IsFaithful (warp_sync_config fails sealing)
  warp-IsFaithful none = search faithful
  warp-IsFaithful (some s) = search faithful

  offchain-IsFaithful :
      (b : Bool) (config : Configuration) → IsFaithful (spawn_offchain fails b config)
  offchain-IsFaithful true config = search faithful
  offchain-IsFaithful false config = search faithful

  common-IsFaithful :
      (config : Configuration) (eth_config : EthConfiguration) (sealing : Option Sealing)
      → IsFaithful (start_common fails config eth_config sealing)
  unfolding start_common
  common-IsFaithful config eth_config sealing =
      search
        (faithful, partial-IsFaithful, warp-IsFaithful, offchain-IsFaithful, frontier-IsFaithful)
        depth 12

  grandpa-IsFaithful :
      (b : Bool) (config : Configuration) → IsFaithful (start_grandpa fails b config)
  grandpa-IsFaithful true config = search faithful
  grandpa-IsFaithful false config = search faithful

  consensus-IsFaithful :
      (authority : Bool) (sealing : Option Sealing) (config : Configuration)
      (eth_config : EthConfiguration)
      → IsFaithful (start_consensus fails authority sealing config eth_config)
  unfolding start_consensus run_manual_seal_authorship
  consensus-IsFaithful true (some s) config eth_config = search faithful
  consensus-IsFaithful true none config eth_config = search (faithful, grandpa-IsFaithful)
  consensus-IsFaithful false sealing config eth_config = search (faithful, grandpa-IsFaithful)

  -- The start of a full node stops at the first request that fails, with the failure that request
  -- gave, and every request before it was answered; where it ends well, all were.
  pub new_full-IsFaithful :
      (config : Configuration) (eth_config : EthConfiguration) (sealing : Option Sealing)
      → IsFaithful (new_full fails config eth_config sealing)
  unfolding new_full
  new_full-IsFaithful config eth_config sealing =
      search (faithful, common-IsFaithful, consensus-IsFaithful)
