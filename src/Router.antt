-- ===== src/Router.antt =====
-- internal/router/router.go: conversations, their queues of turns, and the agent's sessions.
pub mod Attachments
pub mod Sweep
pub mod Setup
pub mod Types
pub mod Query
pub mod TestAgent
pub mod TestDisk
pub mod TestService
pub mod Queue
pub mod Drain
pub mod Agent
pub mod Turn
pub mod Sessions
pub mod Prompt
pub mod Runner
