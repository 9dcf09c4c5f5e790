-- ===== src/Examples.antt =====
-- Runs of the models on concrete inputs.
mod Sessions
mod Devices
mod Codes
mod Files
mod Scans
mod Blobs
mod Papers
mod Drafts
mod Paths
mod Sweeps
