-- ===== src/Node/Purge.antt =====
-- What `purge-chain` (node/src/command.rs) asks to be removed.
use Prim.Native.String.{◌++◌ as ◌<>◌}
use testchain.Base.{
  ◌≡◌, refl, Bool, true, false, Option, none, some, List, [], ◌∷◌, ◌++◌, map, All, arith,
}
use testchain.Base.Result.{ok, err}
use testchain.Node.Config.{
  BackendType, key_value, sql, DatabaseSource, rocks_db, parity_db, other_source,
}
use testchain.Node.Calls.{Request, purge, remove_sql_dir, asked}
use testchain.Node.Startup.{Run, service_error, answered, after, ◌>>◌, attempt, ask, stop}
use testchain.Node.Platform.{Platform}
use testchain.Node.Command.{run_purge_chain, removed, tolerate, cannot_purge}

module _ {E : Type 0} (fails : Request → Option E) (platform : Platform E) where
  open platform use {
    message, is_not_found, debug_error, debug_database, debug_sql_path, frontier_database_dir,
  }

  -- What it asks to be removed, in order: the Frontier store and then the database of the chain. There is
  -- nothing to remove where the store would lie beside a database of another kind.
  abbrev pub targets : BackendType → DatabaseSource → Option (List Request)
  targets sql database = some (remove_sql_dir ∷ purge database ∷ [])
  targets key_value (rocks_db path size) =
      some (purge (rocks_db (frontier_database_dir "db") 0) ∷ purge (rocks_db path size) ∷ [])
  targets key_value (parity_db path) =
      some (purge (parity_db (frontier_database_dir "paritydb")) ∷ purge (parity_db path) ∷ [])
  targets key_value other_source = none

  -- An answer after which `purge-chain` goes on: `Ok`, which `PurgeChainCmd::run` also gives where the
  -- user declines, or that the directory of the SQL database is not there.
  abbrev pub IsSettled : Request → Type 0
  IsSettled remove_sql_dir = (e : E) → fails remove_sql_dir ≡ some e → is_not_found e ≡ true
  IsSettled q = fails q ≡ none

  -- The error that a failed removal is reported as.
  abbrev pub told : Request → E → E
  told remove_sql_dir e = message (cannot_purge debug_sql_path <> ": " <> debug_error e)
  told q e = e

  -- A purge that ended well has asked for all targets in their order, and each was settled. One that
  -- failed asked for a part of them in their order, of which all but the last were settled, and failed
  -- with the error of the last.
  abbrev pub Purges : DatabaseSource → Option (List Request) → Run E (Unit {0}) → Type 0
  Purges database none m =
      m ≡ stop (service_error (message (cannot_purge (debug_database database))))
  Purges database (some qs) (calls, ok a) = (calls ≡ map asked qs) × All IsSettled qs
  Purges database (some qs) (calls, err f) =
      (before : List Request) × (q : Request) × (rest : List Request) × (e : E) × (qs
        ≡ before ++ (q ∷ rest))
      × (calls ≡ map asked (before ++ (q ∷ [])))
      × All IsSettled before
      × (fails q ≡ some e)
      × (f ≡ service_error (told q e))
      × (¬ IsSettled q)

  -- The two targets, from the answers for each.
  last_target :
      (first : Request) (database : DatabaseSource) (o : Option E)
      → IsSettled first
      → fails (purge database) ≡ o
      → Purges database
          (some (first ∷ purge database ∷ []))
          (asked first ∷ asked (purge database) ∷ [], answered o service_error)
  last_target first database none h e = (refl, (h, (e, tt)))
  last_target first database (some r) h e =
      (first ∷ [], purge database, [], r, refl, refl, (h, tt), e, refl, λ k. cc)

  kv_targets :
      (store database : DatabaseSource) (o : Option E)
      → fails (purge store) ≡ o
      → Purges database
          (some (purge store ∷ purge database ∷ []))
          ((asked (purge store) ∷ [], answered o service_error) >> attempt fails (purge database))
  unfolding attempt
  kv_targets store database none e =
      last_target (purge store) database (fails (purge database)) e refl
  kv_targets store database (some r) e =
      ([], purge store, purge database ∷ [], r, refl, refl, tt, e, refl, λ k. cc)

  sql_tolerated :
      (database : DatabaseSource) (r : E) (b : Bool)
      → fails remove_sql_dir ≡ some r
      → is_not_found r ≡ b
      → Purges database (some (remove_sql_dir ∷ purge database ∷ [])) (
          after (asked remove_sql_dir ∷ []) (tolerate fails platform b r)
          >> attempt fails (purge database))
  unfolding attempt stop
  sql_tolerated database r true e h =
      last_target remove_sql_dir database (fails (purge database)) (λ e' k. ground arith) refl
  sql_tolerated database r false e h = (
    [],
    remove_sql_dir,
    purge database ∷ [],
    r,
    refl,
    refl,
    tt,
    e,
    refl,
    λ k. ground (arith, k r e),
  )

  sql_targets :
      (database : DatabaseSource) (o : Option E)
      → fails remove_sql_dir ≡ o
      → Purges database (some (remove_sql_dir ∷ purge database ∷ [])) (
          after (asked remove_sql_dir ∷ []) (removed fails platform o)
          >> attempt fails (purge database))
  unfolding attempt
  sql_targets database none e =
      last_target remove_sql_dir database (fails (purge database)) (λ e' k. ground arith) refl
  sql_targets database (some r) e = sql_tolerated database r (is_not_found r) e refl

  -- `purge-chain` asks for the removal of the Frontier store and then of the database of the chain, and
  -- ends well only where both requests are settled: answered `Ok`, also where the user declines,
  -- or, for the directory of the SQL store, that it is not there. It stops at the first that is not,
  -- with an error that reports it, and so asks for the database of the chain only after the request for
  -- the Frontier store was settled. With a key-value store beside a database of an unknown kind it
  -- refuses and asks for nothing.
  pub run_purge_chain-Purges :
      (backend : BackendType) (database : DatabaseSource)
      → Purges database (targets backend database) (run_purge_chain fails platform backend database)
  unfolding run_purge_chain attempt ask stop
  run_purge_chain-Purges key_value (rocks_db path size) = kv_targets _ _ _ refl
  run_purge_chain-Purges key_value (parity_db path) = kv_targets _ _ _ refl
  run_purge_chain-Purges key_value other_source = refl
  run_purge_chain-Purges sql database = sql_targets database (fails remove_sql_dir) refl
