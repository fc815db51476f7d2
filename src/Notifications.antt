-- ===== src/Notifications.antt =====
-- internal/notifications and internal/redis/notification-queue.go: the queue of notifications, the
-- worker that empties it, and the sender.
pub mod Sender
pub mod Worker
pub mod Queue
