-- ===== src/Gateway.antt =====
-- cmd/gateway: the gateway around the calls: its configuration, the loading of its accounts, and
-- the loop over the signaling server's messages.
pub mod Config
pub mod Load
pub mod Run
mod Tests
