-- ===== src/Backend.antt =====
-- The object store under the queue: the interface of node_relay/relay_client.py (`_Backend`) with
-- its laws, and the in-memory store of the repository's tests.
mod Interface
pub mod Memory
unfoldable pub use Interface.*
