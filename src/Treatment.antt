-- ===== src/Treatment.antt =====
-- src/pgproof/adapters/treatment/compare.py: a change to the application against its baseline.
mod Compare
mod Samples
