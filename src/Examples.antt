-- ===== src/Examples.antt =====
-- Runs of the model at concrete inputs.
mod Scoring
mod Baselines
mod Jobs
mod Migrations
mod Requests
mod Calendar
mod Scans
mod Access
mod History
mod Targets
mod Policies
