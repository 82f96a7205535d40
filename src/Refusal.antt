-- ===== src/Refusal.antt =====
-- web-ui/server/app/domain/refusal_guard.py and the retries of
-- web-ui/server/app/domain/llm_stream.py: text that may be a refusal is held back.
pub mod Guard
pub mod Attempts
pub mod Held
pub mod Released
pub mod Streams
pub mod Retries
pub mod Preserved
pub mod Activity
pub mod Recent
mod Records
mod Examples
