-- ===== src/Errors.antt =====
-- exceptions.py: the exceptions that the modelled code raises, as values. The message of an exception
-- is not kept, except where the code reads it back: `Exhausted` says why a recovery is exhausted.
pub mod Exec
pub mod Preserves
pub mod Checks

-- Why `RecoveryExhaustedError` is raised.
pub data Exhausted : Type 0 where
  attempt_bound last_resort all_tried : Exhausted

pub data Error : Type 0 where
  configuration task_profile routing budget_exceeded planning : Error
  invalid_state_transition not_completed invalid_observation invalid_blocked_report : Error
  recovery_exhausted : Exhausted → Error
  storage_lock corrupt_storage path_escape invalid_identifier invalid_persistence_root : Error
  -- an exception of the operating system that a file operation lets through
  os_error : Error
  -- UnicodeDecodeError, for a file that is not UTF-8
  unicode_decode : Error

-- What a function that may raise returns.
pub data Result {ℓ} (A : Type ℓ) : Type ℓ where
  ok : A → Result A
  err : Error → Result A
