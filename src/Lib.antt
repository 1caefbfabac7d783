-- ===== src/Lib.antt =====
-- A verification library for the backend of the hardening service (a Go server over PostgreSQL
-- and MinIO): users log in, an app is uploaded, a strategy is chosen, a hardening task is queued, and one worker
-- takes the queued tasks, runs the engine, uploads its artifacts and completes or fails the task.
--
-- Parts, and the code that they model:
-- - Model: the rows of the tables (internal/model). Enumerations are data types; a text that nothing
--   validates has a constructor for any other text.
-- - Store: the state and the calls that reach outside. `World` holds the tables, the keys in the
--   object store, the next primary key and the number of calls made; an operation is a function
--   `World → Result A × World`. Store.Hoare carries invariants through operations that may fail
--   anywhere, Store.Outcomes what an operation has done when it succeeds, Store.Success that one
--   succeeds where no call fails, Store.Failures what one that fails has left.
-- - HardeningRepository (internal/repository/hardening_repository.go): Tasks, Steps and Queries hold
--   the operations, one function per method, under the method's name in snake case; Histories runs
--   any sequence of them. Lifecycle is an abstract machine of the tasks, with which Refinement
--   compares the operations. The other files hold the proofs.
-- - Engine (internal/service/hardening_command.go, classifyEngineLine of internal/worker/engine.go):
--   flags, command line, rules text, artifact names, levels of the engine's lines.
-- - Report (internal/service/hardening_report.go): scores, risk level, report.
-- - Audit (internal/service/audit_service.go): the audit row of an operation.
-- - Strategies (internal/repository/strategy_repository.go, internal/service/strategy_service.go):
--   Repository, Inputs and Service; Validity holds proofs.
-- - HardeningService (internal/service/hardening_service.go, FindByID of internal/repository/app_repository.go):
--   Operations calls the repository, the strategies, the report and the audit, as the code does.
-- - Worker (internal/worker/hardening_worker.go): ObjectKey, Artifacts, Steps, Run; it calls the repository,
--   the engine's command line and the report's risk level, as the code does. Completion, Uploads,
--   Rollbacks, Keeping, Settlement, Liveness, Draining hold proofs; Rounds is the loop.
-- - Users (internal/repository/user_repository.go, internal/service/user_service.go,
--   internal/service/auth_service.go, internal/pkg/hash, internal/pkg/jwtutil, SeedAdmin of internal/db/db.go):
--   Repository, Tokens, Service, Login and Seed; Emails, Sessions and Creation hold proofs.
-- - Apps (internal/repository/app_repository.go, internal/service/app_service.go, internal/pkg/manifest):
--   Repository and Service; Deletion, Naming and Uploads hold proofs.
-- - RequestLog (internal/middleware/request_log.go with its service and repository) and Dashboard
--   (internal/service/dashboard_service.go).
-- - Http (internal/handler, internal/pkg/response): one handler per method, a function from a request and the
--   world to a reply and the world; Numbers is the part of strconv that they use.
-- - Router (internal/router/router.go, internal/middleware): Routes is the table of the routes with their guards,
--   Guards what a guard does, Handlers the handler of each route, Dispatch the whole chain. Policy says
--   independently what a role may do; Authorization, Requests and Entry hold proofs.
-- - Examples: the theorems at concrete inputs.
--
-- Parameters, for code that is not in the repository: each SQL statement, begin and commit, each
-- call of MinIO and of the file system is one call, and `fault` says for each whether it fails and with
-- what text; `clock` gives the time of each. A statement that fails changes nothing, and a transaction
-- that fails restores the tables, but not the sequence of keys: this is PostgreSQL's documented
-- behaviour. The unique index on the addresses of the accounts refuses a second row. The locks of the transactions are what makes each one a single step of a history. The
-- engine is `runner`: for a command line and the rules text, the lines printed, the error and the files
-- left. ILIKE, the local hour and day of a time, RFC 3339, the strings.ToLower of the report,
-- presigned links and the number of a task made from the time are functions that are given. So are
-- bcrypt (its salt is the number of the call), golang-jwt, MD5 and SHA-256, the reader of APK files, floating-point numbers, and gin's
-- reading of a body for each struct of a request; gin also chooses the route.
--
-- Numbers are naturals, as keys, times and sizes are never negative there; a page, a limit and
-- so_strength are integers. Page arithmetic is without overflow. Every loop is over a list, so no
-- definition runs on fuel. Times that gorm keeps in updated_at are set where a row is created or saved,
-- and, in tasks, steps and the apps of
-- a task, not followed through the updates of single columns. Times are in nanoseconds; the dates of a token are cut to whole seconds.
--
-- Not modelled: the ticker, the goroutine and the cancellation of the worker (its loop is a number of rounds), the process of the engine, the
-- fallback to the frontend's files, the configuration, connection and migration, and of the object
-- storage what is only a call of MinIO.
pub mod Prelude
pub mod Model
pub mod Engine
pub mod Report
pub mod Store
pub mod HardeningRepository
pub mod Audit
pub mod Strategies
pub mod Users
pub mod Apps
pub mod RequestLog
pub mod Dashboard
pub mod Http
pub mod Router
pub mod Worker
pub mod HardeningService
mod Examples
