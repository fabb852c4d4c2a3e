-- ===== src/Examples.antt =====
-- The theorems at work on concrete data: manifests, disks, executors and policies that their
-- hypotheses hold of.
mod Disk
mod Publishing
mod Manifests
mod Files
mod Verification
mod Daemon
mod Log
mod Snapshots
mod Sorting
mod Fusion
mod Passages
