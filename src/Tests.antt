-- ===== src/Tests.antt =====
-- The theorems on a small application.
mod Cluster
mod Values
mod Unit
mod Users
mod Events
mod Members
mod Secrets
