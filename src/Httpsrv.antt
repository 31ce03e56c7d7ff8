-- ===== src/Httpsrv.antt =====
-- internal/httpsrv/handler.go: Poe's HTTP requests and the stream of an answer.
pub mod Serve
pub mod Writer
pub mod Sink
pub mod Answer
pub mod Screen
pub mod Handler
mod Tests
