-- ===== src/Tests.antt =====
-- Concrete inputs on which the theorems are applied.
pub mod Evidence
pub mod Closing
pub mod Changes
pub mod Policies
pub mod Store
pub mod Gate
pub mod Cache
pub mod Agreement
pub mod Coverage
