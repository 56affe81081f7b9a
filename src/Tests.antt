-- ===== src/Tests.antt =====
-- Runs of the models on fixed inputs, a module for each part.
mod Messages
mod Control
mod Wire
mod Paths
mod Machines
mod Transfers
mod Receiving
mod Storage
mod Sending
mod Sessions
mod Uploads
mod Access
