-- ===== src/Calls/Flow.antt =====
-- A turn's way through `reserve_call_turn`, `record_reserved_user_speech` and
-- `record_completed_ai_speech` of web-ui/server/app/domain/call_service.py.
pub mod Owned
pub mod Answer
