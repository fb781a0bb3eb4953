-- ===== src/Runs.antt =====
-- domain/stages.py, domain/events.py and store/run.py: the stages of a run and its event log.
mod Stages
mod Session
mod History
mod Failures
mod Samples
unfoldable pub use Stages.*
