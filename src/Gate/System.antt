-- ===== src/Gate/System.antt =====
-- The gate with everybody who uses it: the goroutines in `riskSubmit` and the workers of
-- `riskWorker`, as an interleaving of the parts of app/main.go that run without a break.
pub mod Defs
pub mod Accounting
pub mod Wakeups
pub mod Owned
pub mod Delivery
pub mod Digests
pub mod Seeds
pub mod Ended
pub mod Depth
