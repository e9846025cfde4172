-- ===== src/Examples.antt =====
-- Runs of the modelled code on concrete inputs.
mod Caching
mod Queueing
mod Sessions
mod Scaling
mod Paging
mod Permissions
mod Dispatching
mod Resolving
mod Signing
mod OneTime
mod Scheduled
mod Routes
mod Access
mod Broadcast
