-- ===== src/Tests.antt =====
-- Runs of the model at concrete inputs, and each theorem with hypotheses at an input that meets them.
mod Samples
mod Serial
mod Stores
mod Races
mod Snapshots
mod Fetches
mod Feeds
mod Oidcs
mod Releases
mod Updates
mod Requests
mod Blobs
mod Versions
mod Records
mod Indexes
mod Watches
mod Packages
mod Recipes
