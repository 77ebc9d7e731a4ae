-- ===== src/Kv.antt =====
-- The KV service: src/kv and include/kv.
pub mod ByteOrder
pub mod Protocol
pub mod Reader
pub mod Flow
pub mod Body
pub mod Request
pub mod Response
pub mod Store
pub mod Service
pub mod Server
mod Tests
