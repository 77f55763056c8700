-- ===== src/Trigger.antt =====
-- How the hub decides which agents an event wakes: shared/api/filter.go (the filter language),
-- services/hub/internal/trigger/index.go (the index of triggers and the deduplication).
pub mod Text
pub mod Value
pub mod Filter
pub mod Index
pub mod Dedup
mod Tests
