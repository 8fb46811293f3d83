-- ===== src/Tests.antt =====
-- The concrete inputs.
mod Data
mod Scheduling
mod Downloading
mod Configuring
mod Storing
mod Completing
mod Tracking
mod Limiting
mod Showing
mod Updating
mod Bridging
mod Plugging
mod Joining
mod Seeding
mod Torrenting
mod Fetching
mod Directories
mod Sources
