-- ===== src/Proxy.antt =====
-- cmd/mixnet-proxy/main.go: the SOCKS5 proxy. Socks is the negotiation with a client, Forward the
-- loop over HTTP requests with the proof chain, Connection a connection from its start to its end,
-- Circuits many of them at once, Manage the management API.
pub mod Socks
pub mod SocksProofs
pub mod Forward
pub mod Chain
pub mod Manage
pub mod Program
pub mod Connection
pub mod Circuits
pub mod Tests
