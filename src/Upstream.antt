-- ===== src/Upstream.antt =====
-- internal/upstream: the client of the QoderWork gateway. The encoding of its requests is in
-- Encoding.antt.
pub mod Classify
pub mod Models
pub mod Sse
pub mod Client
pub mod Body
pub mod Cosy
pub mod Request
mod Tests
