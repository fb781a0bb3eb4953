-- ===== src/Lib.antt =====
-- A verification library for pgproof, a tool that reviews the PostgreSQL design of an application:
-- it reads migrations, ORM models and captured queries, reconciles them, proposes changes, tries
-- them in disposable databases and orders what is left to do. The implementation is the Python
-- package src/pgproof. Its domain/ holds immutable contract values and pure functions on them, its
-- adapters/ the analyses that parse, compare and measure, and its store/ the durable record of a
-- run. The analyses do not call each other: they exchange the intermediate representations of
-- domain/ir, and name tables and columns by the identities of domain/identifiers.py.
--
-- The parts, each with the code it is about:
-- - Common: equality tests, lists, dictionaries (in insertion order), a stable sort, `Result` for
--   functions that raise.
-- - Identifiers: src/pgproof/domain/identifiers.py. `encode_identity`, `decode_identity`, the table
--   and column ids and the node ids, with the functions' own names. A text is a sequence of code points.
--   Its module Framing is `frame_components`: each writer of JSON puts its text before a given rest.
--   Identity is `canonical_recommendation_identity`.
-- - MigrationPlan: src/pgproof/domain/migration_plan.py, the plan's validator and
--   `topological_order` (Kahn's algorithm: `counters`, `kahn`, `free`, `lower`). The loop of the
--   algorithm runs on fuel, as many rounds as there are steps: a step is placed once at most. Its
--   module Expansion is `expand_change` and `build_migration_plan`.
-- - Advice: src/pgproof/domain/questions.py, domain/ir/context.py, domain/recommendations.py,
--   domain/scenarios.py and domain/integrity.py: the core questions and what an answer does to the
--   context, the recommendations, the scenarios with their differences, and the checks of references.
--   What Unicode says of a digit is a parameter of `apply_core_answer`.
-- - Diagram: src/pgproof/domain/graph.py, graphs and the validator that runs when one is built.
-- - Versioning: src/pgproof/domain/versioning.py, reading a version of the contract and refusing
--   another major one. A number is unbounded, without Python's limit on the digits of an `int`.
-- - Migrations: src/pgproof/adapters/repository/alembic_static.py, from the revisions and operations
--   that have been read to the graph (Graph), its order, and the replayed schema (Apply, Replay). The
--   two depth-first searches run on fuel, one round more than there are revisions: a stack, and the
--   set of what is seen, hold each revision once. A name argument that is no text raises where it
--   is read, in the source where an identity is first built of it. repr, str.upper and str of a value
--   that is no text are parameters.
-- - Runs: src/pgproof/domain/stages.py, domain/events.py and store/run.py, the state machine of the
--   stages of a run. A `Session` is the `RunSession` object with the lines of its event log; each
--   public method is a `Call`; a call gives the result and the session that the exception leaves.
-- - Ir: src/pgproof/domain/ir and domain/sources.py, as records and data types.
-- - Candidates: src/pgproof/adapters/candidates/generate.py, the index candidates of a list of
--   predicates; `consider` is the body of the loop of `generate_candidates`.
-- - Workload: src/pgproof/domain/capture_event.py and adapters/workload/reconstruct.py, from
--   captured events to operations; `observe` is the body of the loop of `reconstruct_workload`. Its
--   module Amplification is adapters/workload/amplification.py, the queries that an operation repeats.
-- - Risk: src/pgproof/adapters/migration_safety/risk.py, the risks of a migration, on the part of
--   Python's syntax trees that the code looks at.
-- - Reconciliation: src/pgproof/domain/reconciliation.py and domain/evidence.py, the disagreements
--   of a migrated schema, the ORM's schema and the code.
-- - Treatment: src/pgproof/adapters/treatment/compare.py, a change against its baseline.
--
-- Numbers are natural numbers where the source's cannot be negative; Python's integers have no
-- bound, so nothing wraps. A message of an exception is left out, its kind is a constructor. The SQL
-- parser (the pglast library), and the evidence and operation ids that are framed as compact JSON, are
-- parameters of the definitions that use them, and the theorems hold whatever they are.
--
-- Not modelled: what reads and writes files, databases, containers and terminals (cli, local_api,
-- the Docker runner, the PostgreSQL adapters, the pytest plugin, the reports and the renderings),
-- the extraction from Python's syntax trees and the generated contract schemas, which are input and
-- output; and the seeder, the rules, the architecture checks, the benchmark's statistics and the
-- proof bundles.
pub mod Common
pub mod Identifiers
pub mod MigrationPlan
pub mod Runs
pub mod Ir
pub mod Candidates
pub mod Treatment
pub mod Workload
pub mod Reconciliation
pub mod Risk
pub mod Advice
pub mod Migrations
pub mod Diagram
pub mod Versioning
