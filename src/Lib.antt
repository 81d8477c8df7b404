-- ===== src/Lib.antt =====
-- QuackRidge: a local daemon that serves read-only SQL over DuckDB to a browser and attaches other
-- databases to it.
--
-- A Service (service.go) drives one engine runtime. The runtime's reconcile Manager
-- (internal/reconcile) reads the configured sources (internal/config), builds an adapter for each
-- (internal/source) and attaches it; the policy (internal/policy) decides which statements a
-- client may run; pairing (internal/pairing) hands a browser the token once; protocol/v2 says what
-- a compatible server and a complete release are; errors.go and version.go are shared by all.
--
-- Prelude: tests on numbers, texts as lists of bytes, maps as association lists, sorting, integers.
-- Errors: errors.go. `GoError` has a constructor for each kind of Go error that the code makes.
-- Version: version.go.
-- Service: service.go. `start`, `reload`, `stop` and `status` return the service and the error.
--   Service.Concurrent splits them at the calls of the runtime, where the mutex is free, and Status
--   at its call of Sources.
-- Source: internal/source/source.go and backoff.go, and validIdentifier of internal/engine.
-- Json: the trees that encoding/json decodes into `any`.
-- Policy: internal/policy/policy.go. Tree is inspectTree, Sources is collectSources, TempTable the
--   pattern of CREATE TEMP TABLE as a matcher and TempTable.Language its language, Evaluate the
--   decision.
-- Config: internal/config/config.go (Document, Store) and service.go (Service). A disk has the
--   main file and its backup; each system call may fail, with the error as an argument. Marshal is
--   what encoding/json documents: a document of UTF-8 strings is read back but for the spelling of
--   its raw options.
-- Reconcile: internal/reconcile/manager.go. The closures of `undo` are a data type, and what is
--   attached is an abstract world that adapters change.
-- Pairing: internal/pairing/pairing.go. A request is what the handler reads of it.
-- Protocol: protocol/v2/identity.go and release.go.
-- Engine: internal/engine/engine.go. Sql builds the statements; Runtime is Attach and Runtime.Metadata
--   the operations after it; Boot is Start, with what it holds open as a record and the executed
--   statements as a list, Boot.Configure its settings and Boot.Stop is Stop; Odbc is AttachODBC and
--   ODBCQuery; Diagnostics is Reload and Diagnostics. The driver's database is abstract; a fixed
--   statement is a constructor.
-- Control: internal/control/control.go. A nil error that would be dereferenced has no response.
-- Secrets: internal/secrets/secrets.go. A memory store is a map.
-- App: internal/app/runtime.go, mergePaths, filePaths and sourcesLocked; App.Reload
--   is Reload with rebuild and restore, over an interface of engines, App.Running is Start, Stop and
--   RotateToken.
-- Source.Filedb, Source.Postgres, Source.Mysql and Source.Odbc: the adapters of internal/source/filedb,
--   postgres, mysql and odbc, over the engine's interface (Source.Attacher, Source.Odbc). Source.Rows
--   is ReadMetadata.
-- Doctor: internal/doctor/doctor.go. A check is the list of what it appends to the report; Bundle is
--   checkExtensions, Live is checkDaemon and Run.
-- Reconcile.Factories: the factories of internal/reconcile/postgres.go and connectors.go.
-- Packaging: cmd/releasemanifest/main.go, over the release directory's files.
-- Checks: runs at concrete inputs.
--
-- All loops are structural recursion over lists, trees or the counter that bounds them; only
-- `decimal` has fuel, one step for each unit of the number, which is enough since a digit is taken
-- off at each step. DuckDB's parser and driver, encoding/json, net/url, package net, sha256,
-- strings.ToLower and strings.ToUpper, the file system of the doctor and the credential stores are
-- parameters; the reconcile manager and the service take the adapters and the engine as
-- interfaces. Not modelled: Diagnostics of internal/app, the command line, the transports, the
-- platforms' keychains, logging, contexts and their cancellation, and the other tools under cmd
-- that build a release.
mod Prelude
pub mod Errors
pub mod Version
pub mod Service
pub mod Source
pub mod Json
pub mod Policy
pub mod Config
pub mod Reconcile
pub mod Protocol
pub mod Pairing
pub mod Engine
pub mod Control
pub mod Doctor
pub mod Secrets
pub mod App
pub mod Packaging
mod Checks
