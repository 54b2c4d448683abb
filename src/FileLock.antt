-- ===== src/FileLock.antt =====
-- safe_json_store.py: how `FileLock.acquire` polls, and the bounded retries of a replacement. What the
-- operating system answers to each try, and the readings of its clock, are parameters; a time is a
-- number of millionths of a second.
pub mod Polling
mod Tests
use agent_gear.Common.{ℕ, zero, suc, ◌+◌, Bool, true, false, Option, none, some, leb, if◌then◌else◌}
use agent_gear.Errors.{Result, ok, err, path_escape, storage_lock, os_error}

-- One try: the lock is taken, a path leaves the root, or the system refuses with OSError.
pub data Try : Type 0 where
  taken escaped refused : Try

-- `_LOCK_TIMEOUT_S` and `_LOCK_POLL_S`
abbrev pub lock_timeout : ℕ
lock_timeout = 10000000

abbrev pub lock_poll : ℕ
lock_poll = 50000

-- What follows a try: an answer, or the rest of the loop.
abbrev pub after_try : Try → Bool → Option (Result (Unit {0})) → Option (Result (Unit {0}))
after_try taken late rest = some (ok tt)
after_try escaped late rest = some (err path_escape)
after_try refused true rest = some (err storage_lock)
after_try refused false rest = rest

-- The first reading of the clock sets the deadline; the one numbered `suc i` follows try `i`.
module _ (timeout : ℕ) (tries : ℕ → Try) (clock : ℕ → ℕ) where
  abbrev pub deadline : ℕ
  deadline = clock 0 + timeout

  -- The loop from try `i` on, as far as the fuel goes.
  unfoldable pub poll : ℕ → ℕ → Option (Result (Unit {0}))
  poll zero i = none
  poll (suc fuel) i =
      let rest = poll fuel (suc i) in after_try (tries i) (leb deadline (clock (suc i))) rest

-- `_replace_with_retry` and `_read_text_with_retry`, with `fails` for the tries that are refused: so many
-- are left, from try `i` on.
unfoldable pub retry_from : (ℕ → Bool) → ℕ → ℕ → Result (Unit {0})
retry_from fails zero i = err os_error
retry_from fails (suc left) i =
    let rest = retry_from fails left (suc i) in if fails i then rest else ok tt

-- `_REPLACE_RETRY_ATTEMPTS`, which is also `_READ_RETRY_ATTEMPTS`
unfoldable pub retry_twenty : (ℕ → Bool) → Result (Unit {0})
unfolding retry_from
retry_twenty fails = retry_from fails 20 0
