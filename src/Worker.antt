-- ===== src/Worker.antt =====
-- internal/worker: the consumers of the message queues and the outbox poller.
pub mod Retry
pub mod Outbox
pub mod Like
pub mod Social
pub mod Comment
pub mod Popularity
pub mod Timeline
pub mod Notification
