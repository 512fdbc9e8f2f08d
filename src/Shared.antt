-- ===== src/Shared.antt =====
-- src/shared: what the control plane and the services both use.
pub mod Message
pub mod Errors
pub mod Result
pub mod Deadline
pub mod Types
pub mod Body
pub mod ConnInfo
pub mod Hmac
pub mod Assertion
pub mod JsonSchema
pub mod Jwk
pub mod Crypto
pub mod Proof
pub mod Tokens
pub mod Catalog
pub mod Paths
pub mod Idempotency
