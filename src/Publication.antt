-- ===== src/Publication.antt =====
-- src/postgresbuild/publication.py: validation of GitHub snapshots and the index made of them.
pub mod Platform
pub mod Policy
pub mod Record
pub mod Coordinates
pub mod Fragment
pub mod Index
pub mod Snapshot
pub mod Fetch
pub mod Feed
pub mod Oidc
pub mod Materialize
