-- ===== src/Chat/Tests.antt =====
-- chatd/main.go: runs of the daemon on a concrete host, with a concrete codec for what it stores.
pub mod Codec
pub mod World
mod Direct
mod Groups
mod Lists
mod Concurrent
