-- ===== src/Kernel/Mailbox.antt =====
-- Mailboxes: queues of messages, by arrival or by priority.
pub mod Queue
pub mod Handlers
pub mod Order
