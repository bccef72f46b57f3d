-- ===== src/Tests.antt =====
-- The theorems at concrete inputs.
mod Numbers
mod Kinds
mod Names
mod Scheduling
mod Files
mod Hierarchies
mod Storage
