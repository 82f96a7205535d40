-- ===== src/Engines.antt =====
-- ai-backend/app/models/model_manager.py: the one speech engine in memory and the prompt that live
-- calls lease.
pub mod Types
pub mod Switch
pub mod Prepare
pub mod Release
pub mod Runs
pub mod Residency
pub mod Serving
pub mod Stable
pub mod Leases
pub mod Outcomes
pub mod Switching
pub mod Refused
pub mod Overtaken
mod Examples
