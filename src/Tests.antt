-- ===== src/Tests.antt =====
-- The theorems at concrete inputs.
mod Merging
mod Storage
mod Access
mod Agents
mod Numbers
mod Server
mod Patches
mod Syncing
