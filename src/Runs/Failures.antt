-- ===== src/Runs/Failures.antt =====
-- A call that raises: what it leaves behind.
use pgproof.Runs.Stages.{stage_equality}
use pgproof.Runs.Session.{Session}
