-- ===== src/Chat/RoundTrip.antt =====
-- Sessions written by writeChatSessionMarkdown and read back (chat_history.go).
pub mod Plain
pub mod Segments
pub mod Messages
pub mod Header
pub mod Session
