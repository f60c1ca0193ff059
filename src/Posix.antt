-- ===== src/Posix.antt =====
-- The boundary between the programs and the system: calls and replies, programs as trees of calls,
-- their runs against a history of replies, and the two ways to reason about all runs.
mod Calls
mod Programs
mod Runs
mod Monitors
mod Fuel
mod Answers
mod Buffers
mod Refinements
pub use Calls.*
unfoldable pub use Programs.*
unfoldable pub use Runs.*
pub use Monitors.*
pub use Fuel.*
pub use Answers.*
pub use Buffers.*
pub use Refinements.*
