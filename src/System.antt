-- ===== src/System.antt =====
-- The world around the module, and the monad in which its handlers run.
mod Calls
mod Monad
pub mod Views
pub use Calls.*
pub use Monad.*
