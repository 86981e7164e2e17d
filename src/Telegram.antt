-- ===== src/Telegram.antt =====
-- The telegram module of the API: the mapper and the endpoint that takes the messages of the
-- Telegram worker, and the accounts that the worker is asked to log in, connect and disconnect.
pub mod Mapper
pub mod Ingest
pub mod Sidecar
pub mod Accounts
pub mod Listener
pub mod Login
pub mod Service
pub mod Samples
