-- ===== src/Prompt.antt =====
-- web-ui/server/app/domain/prompt_builder.py: the sections of a prompt and how they are made to fit the
-- context of the model.
pub mod Sections
pub mod Compose
pub mod Mandatory
pub mod Dialogue
pub mod Printed
mod Groups
mod Examples
