-- ===== src/Speech.antt =====
-- The speech of a live call on the web server: how web-ui/server/app/domain/call_tts_segments.py cuts
-- the text of an answer into segments.
pub mod Segmenter
pub mod Visible
pub mod Conserved
mod Examples
