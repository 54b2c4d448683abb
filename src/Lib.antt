-- ===== src/Lib.antt =====
-- AgentGear: the routing and planning of a task, the watchdog of its execution (src/agentgear/watchdog)
-- with a budget ledger and an escalation engine, and the store of its checkpoints.
--
-- From a `TaskProfile` the program computes a complexity and a risk score, routes the task to a model
-- tier and a reasoning effort, staffs it with agents, and builds a plan within a budget. A watchdog
-- that is made from the plan then supervises the execution. A state machine holds the state and the history of its
-- transitions; the coordinator `ExecutionWatchdog` drives it, feeds the stall detector and the
-- progress tracker, charges a budget ledger, climbs a ladder of recovery strategies under a loop
-- guard, decides on escalations to a stronger model, and mirrors each change to a heartbeat file.
--
-- Where each part is:
--   StateMachine   src/agentgear/watchdog/state_machine.py: `allowed` is `_ALLOWED`, `transition` the
--                  method; Transition has the effect of one call, History that of any calls.
--   Budget         src/agentgear/budget.py: `Ledger` and its operations; Totals has the sums over
--                  reservations, Laws the invariant, Accounts what the callers rely on,
--                  Status the figures that a ledger shows,
--                  Kinds counts the reservations of a kind.
--   Recovery       src/agentgear/watchdog/recovery.py: `next_strategy` and `LoopGuard`; Ladder, Guard.
--   Progress       src/agentgear/watchdog/progress.py; Chronology has the order of the log.
--   Stall          src/agentgear/watchdog/stall_detection.py: `detect` is `StallDetector.evaluate`;
--                  Boundary and Signals.
--   Escalation     src/agentgear/escalation.py and the costs of src/agentgear/routing.py; Decision.
--   Ratios         the exact fractions that stand for scores and thresholds.
--   Analysis       src/agentgear/analysis.py: `assess_complexity` and `assess_risk`; Scores.
--   Routing        src/agentgear/routing.py: `route` and the choices that it is made of; Floors has the
--                  minimum tiers and efforts, Monotone compares two tasks.
--   Planning       src/agentgear/planning.py: the strategy and the plan; Staffing has the shape of the
--                  pipeline, Budgets the ceilings, Critical the way of a critical signal from the
--                  profile to the plan. Watchdog.Plans has `from_plan`, which takes a plan over.
--   Api            src/agentgear/api.py: `analyze` and `plan`; Guarded.
--   Checkpoints    src/agentgear/checkpoints.py, on the part of src/agentgear/safe_json_store.py that it
--                  calls: Codec, Layout, Appending, Packing and History for one process, Corruption for
--                  a damaged file, Locking and Interleaving for several processes. Json has the values
--                  of the files, PathSecurity the check of an identifier from
--                  src/agentgear/path_security.py.
--   FileLock       src/agentgear/safe_json_store.py: how a lock is polled, and the bounded retries;
--                  Polling.
--   Context        src/agentgear/context_provider.py; Budget has the tokens of a package.
--   Blocked        src/agentgear/watchdog/blocked.py.
--   Watchdog       src/agentgear/watchdog/coordinator.py: State has the fields, Episodes, Work and
--                  Recovering the part of each method that works in memory, Api the public methods
--                  with their heartbeats; Frame shows which properties every method keeps; Safety,
--                  Bounds, Escalations, Reports and DeadEnds are about any sequence of calls,
--                  Heartbeats about the file that mirrors the state.
--   Models, Config, Errors, Floats, Common: the records of src/agentgear/models.py with the checks of
--                  their constructors, the policies of src/agentgear/config.py, the exceptions of
--                  src/agentgear/exceptions.py as values, numbers, and shared helpers.
--
-- How the state is modelled: an object is a record, a method that changes it an action
-- `Exec S A = S → Result A × S`, where what was written before an exception stays written. A
-- sequence of calls is a list of `Event`s, and a call that raises is an event like any other. Only
-- one thread calls a watchdog or a ledger, as their documentation asks.
--
-- Numbers: Python's integers are unbounded, and so are ℕ and ℤ here. A finite float is a whole
-- number of millionths, with NaN and the two infinities beside it; the rounding of floats is not
-- modelled. In that unit the cost of `estimate_cost` is exact. A sum of costs is exact here, where
-- the code rounds it in the order of the reservations. A subtraction of times is the one that stops
-- at 0, where the code writes max(0.0, …). Scores are fractions, computed without rounding; none of
-- them is negative, so max(0.0, min(1.0, x)) is a minimum with one, and the shift of a threshold,
-- which has a sign, is kept as what it adds and what it takes away.
--
-- Texts that the program composes (notes, reasons, causes) are kept by their parts, in `Message`. The
-- identifier f"res-{n}" of a reservation is its number n. Checks by isinstance are made by the types.
-- The loops of the code are over lists or counted, but for the one of `FileLock.acquire`, which runs on
-- fuel: one try for each polling interval of the timeout, and one more, are enough, which are 201 tries
-- for the ten seconds and the twentieth of a second of the code.
--
-- The checkpoint files: a directory is a dictionary from the numbers of its segments to what the
-- files hold, a JSON document, a text that is not JSON, or bytes that are not UTF-8. A write
-- replaces a whole file and a damaged file is renamed, as the code has it, but for one that cannot
-- be decoded, which stays; a call of the operating system succeeds there. `append` is one action
-- under the lock of the execution in Appending, and three steps of a process in Locking.
--
-- What is a parameter: the heartbeat writer and the checkpoint store (`Persistence`), two actions on a
-- disk of any type, which may raise; the search of the context provider; and, for the lock, the answer
-- of the system to each try and the readings of its clock. The one law that is assumed of them is that
-- time.sleep lasts at least the time that it is asked for and that the monotonic clock never goes back.
--
-- What is not modelled: the `status` of a watchdog, which only reads it; the `evidence` mappings of
-- progress events, the rationale and summary texts of decisions and plans, which nothing reads; the
-- checks of `state_dir` in the constructors, and the containment of paths; policies read from
-- mappings or YAML; in src/agentgear/safe_json_store.py the temporary files, and the checks and the
-- directory that `FileLock.acquire` makes before it polls; the file of heartbeats, and the command
-- line.
pub mod Common
pub mod Errors
pub mod Floats
pub mod Models
pub mod Ratios
pub mod Analysis
pub mod Routing
pub mod Config
pub mod StateMachine
pub mod Budget
pub mod Recovery
pub mod Progress
pub mod Stall
pub mod Escalation
pub mod Blocked
pub mod Watchdog
pub mod Planning
pub mod Json
pub mod PathSecurity
pub mod Checkpoints
pub mod FileLock
pub mod Api
pub mod Context
