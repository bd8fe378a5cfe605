-- ===== src/Webmail.antt =====
-- The mail server under webmail/.
pub mod Client
pub mod Input
pub mod Send
pub mod Session
