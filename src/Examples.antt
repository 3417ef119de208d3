-- ===== src/Examples.antt =====
-- The theorems on concrete inputs.
mod World
mod Frames
mod JobServices
mod Uploads
mod Queues
mod Managers
mod Crews
mod Settings
mod Services
mod Apis
mod Disks
mod Objects
mod Contracts
mod Lookups
mod Shutdowns
