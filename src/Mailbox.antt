-- ===== src/Mailbox.antt =====
-- internal/mailbox: the files of a session, their atomic replacement, and the message store.
pub mod Files
pub mod Io
pub mod Write
pub mod Store
pub mod Sequence
pub mod Messages
pub mod Coordinator
