-- ===== src/Scenarios.antt =====
-- Tests on concrete inputs, and each theorem at an input that meets its hypotheses.
mod RaftRuns
mod HaRuns
mod JournalRuns
mod QueueRuns
mod Table
mod ExecutorRuns
mod StorageRuns
mod TimelineRuns
mod HealthRuns
mod HandoffRuns
mod RetryRuns
mod OperatorRuns
