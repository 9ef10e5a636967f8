-- ===== src/Protocol.antt =====
-- Plugin protocol v1 (internal/protocol): the documents, their validation, and the server.
pub mod Value
pub mod Types
pub mod Duration
pub mod Validate
pub mod ReadOnly
pub mod Serve
