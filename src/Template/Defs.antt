-- ===== src/Template/Defs.antt =====
-- pallets/template/src/lib.rs: the storage item, the event, the errors and the two dispatchables.
-- What the pallet calls of FRAME is the parameter `Frame`; mutable state is passed and returned.
use testchain.Base.{ℕ, Option, none, some}
use testchain.Base.Words.{u32_max, checked_add}
use testchain.Base.Result.{Result, ok, err}

-- `enum Event`
pub data Event (AccountId : Type 0) : Type 0 where
  something_stored : ℕ → AccountId → Event AccountId

-- `enum Error`
pub data Error : Type 0 where
  none_value storage_overflow : Error

-- The errors of a dispatchable: `BadOrigin` of `ensure_signed`, or one of the pallet's.
pub data DispatchError : Type 0 where
  bad_origin : DispatchError
  module_error : Error → DispatchError

-- The code under the pallet: origins and accounts, `ensure_signed`, and the deposit of an event in
-- the state of `frame_system`.
pub record Frame : Type 1 where
  pub Origin : Type 0
  pub AccountId : Type 0
  pub System : Type 0
  pub ensure_signed : Origin → Result DispatchError AccountId
  pub deposit_event : Event AccountId → System → System

module _ (F : Frame) where
  open F use {Origin, AccountId, System, ensure_signed, deposit_event}

  -- The storage: `Something`, a `StorageValue<_, u32>`, beside the state of `frame_system`.
  pub record Storage : Type 0 where
    pub something : Option ℕ
    pub system : System

module _ (F : Frame) where
  open F use {Origin, AccountId, System, ensure_signed, deposit_event}

  -- `Something::<T>::put(something)`
  abbrev pub put : ℕ → Storage F → Storage F
  put n s = record s { something = some n }

  abbrev Outcome : Type 0
  Outcome = Result DispatchError (Unit {0}) × Storage F

  abbrev store_signed : Result DispatchError AccountId → ℕ → Storage F → Outcome
  store_signed (err e) n s = (err e, s)
  store_signed (ok who) n s =
      let s' = put n s in
      (ok tt, record s' { system = deposit_event (something_stored n who) s'.system })

  -- `do_something`
  unfoldable pub do_something : Origin → ℕ → Storage F → Outcome
  do_something origin n s = store_signed (ensure_signed origin) n s

  -- `old.checked_add(1).ok_or(StorageOverflow)?`, then the write.
  abbrev write_new : Option ℕ → Storage F → Outcome
  write_new none s = (err (module_error storage_overflow), s)
  write_new (some new) s = (ok tt, put new s)

  abbrev increment : Option ℕ → Storage F → Outcome
  increment none s = (err (module_error none_value), s)
  increment (some old) s = write_new (checked_add u32_max old 1) s

  abbrev increment_signed : Result DispatchError AccountId → Storage F → Outcome
  increment_signed (err e) s = (err e, s)
  increment_signed (ok _) s = increment s.something s

  -- `cause_error`
  unfoldable pub cause_error : Origin → Storage F → Outcome
  cause_error origin s = increment_signed (ensure_signed origin) s
