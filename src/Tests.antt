-- ===== src/Tests.antt =====
-- The theorems applied to concrete inputs.
mod Doors
mod Readers
mod Supervisors
mod Files
mod Counts
mod Queues
mod Pages
mod Settings
mod Statuses
mod Servers
mod Runtimes
mod Services
mod Serials
mod Apis
mod Lines
mod Sinks
