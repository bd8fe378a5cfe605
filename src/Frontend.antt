-- ===== src/Frontend.antt =====
-- The web frontend under frontend/.
pub mod Text
pub mod Lines
pub mod Requests
pub mod Balancer
pub mod Backend
pub mod Pages
pub mod Guard
pub mod Passwords
pub mod Servers
pub mod World
pub mod Mails
pub mod MailPages
pub mod FilePages
pub mod Admin
pub mod Respond
