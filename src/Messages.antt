-- ===== src/Messages.antt =====
-- The messages module: messages/message.service.ts over its repository.
pub mod Repository
pub mod Dto
pub mod Create
pub mod Queries
