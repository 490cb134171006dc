-- ===== src/Tests.antt =====
-- Runs of the model at concrete data, and the theorems applied at inputs that meet their hypotheses.
mod Data
mod Content
mod Calls
mod ReadOnly
mod Xattrs
mod Recovery
mod Session
mod Handles
mod Entries
mod Past
mod Forgetting
