-- ===== src/FileLock/Tests.antt =====
-- Two tries that are refused, a twentieth of a second each, and one that takes the lock.
use agent_gear.Common.{ℕ, zero, suc, ◌*◌, ◌≤◌, ◌≡◌, some, arith}
use agent_gear.Errors.{Result}
use agent_gear.FileLock.{Try, taken, refused, poll, lock_timeout, lock_poll}
use agent_gear.FileLock.Polling.{Ends, RefusedUntil, acquire-IsAnswered}

abbrev tries : ℕ → Try
tries zero = refused
tries (suc zero) = refused
tries (suc (suc i)) = taken

abbrev clock : ℕ → ℕ
clock i = i * lock_poll

acquire-IsAnswered_example :
    (n : ℕ) × (r : Result (Unit {0})) × (poll lock_timeout tries clock 201 0 ≡ some r)
    × (n ≤ 200)
    × RefusedUntil lock_timeout lock_poll tries clock 0 n
    × Ends lock_timeout lock_poll tries clock n r
acquire-IsAnswered_example =
    acquire-IsAnswered lock_timeout lock_poll tries clock (λ i. omega arith) 200 (omega arith)
      (omega arith)
