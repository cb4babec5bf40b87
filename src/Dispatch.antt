-- ===== src/Dispatch.antt =====
-- src/elke27_lib/dispatcher_loop.py: routes, kinds, correlation, paged transfers, handlers.
pub mod IntText
pub mod Json
pub mod Route
pub mod State
pub mod Paged
pub mod Run
pub mod Routing
pub mod Correlation
pub mod FanOut
pub mod RootEmpty
pub mod Blocks
pub mod Reassembly
pub mod Transfers
mod Tests
