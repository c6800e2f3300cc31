-- ===== src/Client.antt =====
-- packages/client/src/client.ts: the class ChimelyClient.
pub mod Backoff
pub mod State
pub mod Merge
pub mod Refresh
pub mod Connection
pub mod Paging
pub mod Mutations
pub mod Step
pub mod Lifecycle
pub mod Items
