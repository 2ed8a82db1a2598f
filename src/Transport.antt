-- ===== src/Transport.antt =====
-- mash-go/pkg/transport: what a connection of the protocol does with bytes, and how it stays alive.
pub mod Framing
pub mod KeepAlive
