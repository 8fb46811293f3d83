-- ===== src/Bridge.antt =====
-- internal/browserbridge/bridge.go: the server on the local machine that the browser extension
-- speaks to.
pub mod Message
pub mod Reply
pub mod State
pub mod Session
pub mod Server
