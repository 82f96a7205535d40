-- ===== src/Calls/Safety.antt =====
-- What no operation of web-ui/server/app/domain/call_service.py does to the database.
pub mod Rows
pub mod Evolves
pub mod Reserve
pub mod Record
pub mod End
pub mod Runs
