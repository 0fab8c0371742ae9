-- ===== src/Core.antt =====
-- services/core: the status vocabulary and the execution policies that every package shares.
mod Enums
mod Policies
pub use Enums.*
pub use Policies.*
