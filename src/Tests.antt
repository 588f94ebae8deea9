-- ===== src/Tests.antt =====
-- The theorems of the library, applied to concrete jobs, batches and statuses.
mod Ascii
mod Jobs
mod Statuses
mod Batches
mod Deliveries
mod Runners
mod Turns
mod Splitting
mod Blocks
mod Aborts
mod Activations
mod Intents
mod Starts
mod Persisted
