-- ===== src/Messages.antt =====
-- web-ui/server/app/domain/message_actions.py: edits, alternates and the removal of stale messages.
pub mod Rows
pub mod Actions
pub mod Editing
pub mod Alternates
pub mod Numbering
mod Examples
