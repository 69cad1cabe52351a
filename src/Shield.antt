-- ===== src/Shield.antt =====
-- walletshield-fix/main.go: the HTTP server that sends a wallet's requests through the mixnet.
pub mod Texts
pub mod Server
pub mod Program
pub mod Requests
pub mod Retries
pub mod Replies
pub mod Recovery
pub mod Turns
pub mod Tests
