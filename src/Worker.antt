-- ===== src/Worker.antt =====
-- ai-backend/app/models/tts_qwen3_protocol.py: the events of the Qwen3 speech worker and the
-- request-scoped validator of its stream.
pub mod Stream
pub mod Order
mod Examples
