-- ===== src/Tests.antt =====
-- Data to run the model on, and the theorems applied to it.
pub mod Data
pub mod Policies
pub mod Serving
pub mod Streaming
pub mod Mesh
pub mod Ordering
pub mod Webhooks
pub mod Functions
pub mod Files
pub mod Joining
pub mod Servers
pub mod Tokens
pub mod Environment
pub mod Setups
pub mod Replies
