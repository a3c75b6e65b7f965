-- ===== src/Database.antt =====
-- The database that the services share (backend/prisma/schema.prisma) and the calls of the client.
pub mod Enums
pub mod Rows
pub mod Action
pub mod Calls
