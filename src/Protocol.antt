-- ===== src/Protocol.antt =====
-- internal/protocol: identifiers, domains, the documents and their validation.
pub mod Ids
pub mod Domains
pub mod Enums
pub mod Documents
pub mod Validation
