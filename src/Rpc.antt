-- ===== src/Rpc.antt =====
-- src/rpc: the JSON-RPC types, the dispatch of requests, and the server's connections.
pub mod Types
pub mod Json
pub mod Handler
pub mod Server
