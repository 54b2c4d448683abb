-- ===== src/Watchdog.antt =====
-- watchdog/coordinator.py: `ExecutionWatchdog`. The state is in `State`, the parts of the methods that
-- work on the state in memory in `Episodes`, `Work` and `Recovering`, and the public methods, which
-- mirror that state to the heartbeat file, in `Api`.
pub mod State
pub mod Episodes
pub mod Work
pub mod Plans
pub mod Recovering
pub mod Frame
pub mod Api
pub mod Safety
pub mod DeadEnds
pub mod Heartbeats
pub mod Escalations
pub mod Reports
pub mod Bounds
mod Tests
