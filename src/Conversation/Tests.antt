-- ===== src/Conversation/Tests.antt =====
-- zkchat/main.go and chatd/main.go: runs of the client and the daemon over a concrete mixnet.
mod Network
mod Letters
mod SealedLetters
