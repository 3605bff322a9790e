-- ===== src/Core.antt =====
-- What the components share: the exceptions, the calls that leave the charm, the world that answers
-- them, and the monad of code that makes such calls and may raise.
pub mod Error
pub mod Call
pub mod World
pub mod Exec
pub mod Safe
pub mod Retry
pub mod Ensures
pub mod Event
pub mod Sets
pub mod Dict
