-- ===== src/Notifications.antt =====
-- The notifications module: notifications/notification.service.ts over its repository.
pub mod Repository
pub mod Channels
pub mod Listing
pub mod Process
