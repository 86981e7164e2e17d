-- ===== src/Web.antt =====
-- The web application, apps/web: its client of the API, and the state of its pages.
pub mod Client
pub mod Feed
pub mod Login
pub mod Messages
pub mod Monitors
pub mod Bots
pub mod Notifications
pub mod SignIn
