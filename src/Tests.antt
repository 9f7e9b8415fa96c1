-- ===== src/Tests.antt =====
-- The theorems at concrete inputs, and runs of the model.
mod Sample
mod Search
mod Recovery
mod Traces
mod Certificates
mod Snapshots
mod Evidence
mod Services
mod Jobs
mod Recoveries
