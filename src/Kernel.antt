-- ===== src/Kernel.antt =====
-- The hash chains of app/main.go and app/sha4lane_amd64.go: the chain's specification, the packed
-- hex encoder, and the loops that run one, two or four chains through whatever kernel is installed.
pub mod Hex
pub mod Chain
pub mod X16
pub mod Install
pub mod Samples
mod Tests
use obsidio.Prelude.{ℕ}
