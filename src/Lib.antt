-- ===== src/Lib.antt =====
-- IaSQL keeps the state of a cloud account in PostgreSQL: a commit reads both sides, finds what
-- differs, and brings the cloud to what the database says (`apply`) or the database to what the cloud
-- says (`sync`). This library models the engine that does so. Paths are from the repository's root.
--
-- The parts and their files:
--
-- - Base: the lists, texts and insertion-ordered maps of JavaScript, as lists, native texts and
--   association lists with one entry for each key.
-- - Diff (src/services/diff.ts): `find_diff` is findDiff, `map_segmentation` is mapSegmentation.
-- - LazyDep (src/services/lazy-dep.ts): `lazy_loader` is lazyLoader. An operation is a function on the
--   state of the world that may throw, and what it changed before it threw stays. The fuel bounds the
--   rounds; one more than the number of operations is enough, since every round but the last has fewer
--   operations than the one before. What an operation throws is taken to be no `null` or `undefined`:
--   with these, reading the stack of the error throws out of lazyLoader.
-- - Modules, ModSort (src/modules/interfaces.ts, src/services/mod-sort.ts): `sort_modules` is
--   sortModules. The fuel is the square of the number of modules and one, since one turn of the queue
--   emits a module; without a module that can be emitted the program does not return.
-- - Json, AuditLog (src/modules/iasql_platform/entity, src/modules/iasql_functions/iasql.ts): the rows
--   of iasql_audit_log, the engine's queries on them (`AuditLog/Query`), the transactions
--   (`AuditLog/Transactions`: maybeOpenTransaction and closeTransaction). TypeORM's repository is a
--   parameter, `LogRepo`, and `AuditLog/Memory` is an instance of it. A point in time is a number.
-- - Plan (src/modules/iasql_functions/iasql.ts): `update_commit_plan`, `iasql_plan_v3`, `record_count`,
--   `col_to_row`.
-- - Reconcile (src/modules/iasql_functions/iasql.ts): `apply` and `sync`, whose nested loops are
--   `run_loops` with fuel for the rounds of both. The mappers of the modules and the context are
--   parameters (`Mapper`, `Context`), for any type of the world and of entities. An entity is a
--   reference, whose fields live in the world.
-- - Selection, Install (src/modules/iasql_functions/iasql.ts): getModulesWithChanges, indexModsByTable,
--   getImportedModules and modules; of install and uninstall what happens before SQL runs. The search
--   of a module by name gives `none` where the program has `undefined`, and `sort_found` is sortModules
--   on such a list. The fuel of `attach_deps` bounds the rounds of install's loop; one more than the
--   number of modules is enough, since each round but the last lists a module more.
-- - Commit (src/modules/iasql_functions/iasql.ts): `commit` with its phases and its finally block,
--   `rollback` (`Commit/Rollback`), and `revert`. Where createConn throws, `orm` stays
--   null and nothing is saved: this is `not_connected`; all other writes to the log have a connection.
--   The body of revert's try block is a field of the `Session`; `Commit/Undo` is that body with
--   applyInverseQueries, which has fuel for its apply.
-- - Queries (src/modules/iasql_functions/iasql.ts): recreateQueries. `get_formatted_query` makes a
--   template, as the list of its pieces, and the arguments, for `format` of pg-format, a parameter;
--   `Queries/Metadata` is what is read of TypeORM's metadata, with getTableMetadata; `Queries/Augment`
--   is augmentValue and recreateSubQuery, which call one another; `Queries/Recreate` goes from the log
--   to the queries and the recreated entities; `Queries/Changes` is getChangesByEntity.
--   A number bounds the depth of the sub-queries: 1 without sub-queries, and else more than the rank of
--   a column, where the ranks fall along the references. A recreated entity without properties, at which the
--   search for a referred entity throws, is passed over.
-- - Crud (src/modules/interfaces.ts): the class Crud. `memo`, `unmemo_all`, `create_many` and
--   `create_one`, `read`, `update_entities`, `delete_entities` are its methods, on a `Session` with a
--   heap of objects, the memo as three maps in one another, and the world. The mapper's functions are
--   parameters that may change all of it.
-- - Policy (src/services/canonical-iam-policy.ts, src/services/aws-diff.ts): `normalize_policy` is
--   normalizePolicy, `policies_are_same` is policiesAreSame. toLowerCase and the isEqual of lodash are
--   parameters; texts are sorted by the units of UTF-16
--   of their characters.
-- - Rpc (src/router/db.ts): `rpc_call` is rpcCall, with the checks of the lock before and after the
--   call; `get_context` (`Rpc/Contexts`) is getContext.
-- - Ids (src/services/cloud-id.ts, src/services/aws-resolve-support.ts, src/modules/interfaces.ts): the
--   marked columns, the ids made of them, and the fields read back from an id (`Ids/Split`).
-- - Macros (src/services/aws_macros.ts): pages, mapLin, eqTags.
--
-- How they interact: Commit finds the changes in the audit log, chooses the modules by Selection, sorts
-- them by ModSort, and runs the phases of Reconcile. Reconcile runs the mappers' reads and writes by
-- `lazy_loader`, compares by `find_diff`, and records in the plan by `update_commit_plan`; which changes
-- it may touch enters it as two functions of the context, which stand for getChangesByEntity and
-- getChangesAfterCommitStartedByEntity.
--
-- Not modelled: the modules' own mappers and calls of the cloud's interfaces, the entities, the
-- HTTP server, the dashboard, the telemetry, the logger and the metadata records (input, output and
-- third-party calls); the migrations of modules, which run SQL that the build generates;
-- objectsAreSame of src/services/aws-diff.ts. Sleeping between two polls is a function that says
-- what other sessions did to the table meanwhile.
pub mod AuditLog
pub mod Base
pub mod Commit
pub mod Crud
pub mod Diff
pub mod Ids
pub mod Install
pub mod Json
pub mod LazyDep
pub mod Macros
pub mod ModSort
pub mod Modules
pub mod Plan
pub mod Policy
pub mod Queries
pub mod Reconcile
pub mod Rpc
pub mod Selection
