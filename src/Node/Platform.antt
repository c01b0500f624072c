-- ===== src/Node/Platform.antt =====
-- What node/src/command.rs makes errors of, and its failures.
use testchain.Base.{Bool, String}
use testchain.Node.Config.{DatabaseSource}
use testchain.Node.Startup.{Run, service_error, panicked, stop}

-- `From` a text for the error, `ErrorKind::NotFound`, the `{:?}` of an error, of a database and of
-- the path of the SQL database, and `fc_db::kv::frontier_database_dir` at the configured directory.
pub record Platform (E : Type 0) : Type 0 where
  pub message : String → E
  pub is_not_found : E → Bool
  pub debug_error : E → String
  pub debug_database : DatabaseSource → String
  pub debug_sql_path : String
  pub frontier_database_dir : String → String

module _ {E : Type 0} (platform : Platform E) where
  open platform use {message}

  -- An `Err` that the command makes itself, and a panic.
  abbrev pub refuse : {A : Type 0} → String → Run E A
  refuse text = stop (service_error (message text))

  abbrev pub panic : {A : Type 0} → String → Run E A
  panic text = stop (panicked (message text))
