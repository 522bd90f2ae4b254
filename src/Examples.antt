-- ===== src/Examples.antt =====
-- The theorems at concrete inputs, and runs of the definitions, part by part.
mod Lists
mod Disks
mod Nodes
mod Folders
mod Files
mod Mounts
mod Creates
mod Names
mod Sessions
mod Modules
mod Again
mod Systems
mod Reached
mod Reads
