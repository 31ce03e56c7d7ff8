-- ===== src/Poeproto.antt =====
-- internal/poeproto/poeproto.go: the Poe server-bot protocol.
pub mod Sse
pub mod Wire
pub mod Body
pub mod Requests
pub mod Controls
pub mod Tokens
mod Tests
