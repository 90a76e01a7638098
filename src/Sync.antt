-- ===== src/Sync.antt =====
-- app/internal/sync: the refresh of one user's rows from the PDS.
pub mod Collection
pub mod Sidecars
pub mod Table
pub mod Saves
pub mod Engine
pub mod FeedPipeline
pub mod Catalog
pub mod Subscriptions
