-- ===== src/Lib.antt =====
-- data-info serves the Discovery Environment's view of an iRODS zone over HTTP. A handler checks its
-- request against the paths that unfinished tasks hold (internal/locks), then acts at once through
-- internal/service, or records a task and hands a job (internal/jobs) to the runner (internal/worker),
-- which sees the task to a terminal status. Every call of iRODS goes through one pool of sessions
-- (internal/irodsclient), whose connections are capped. Names and limits of paths are those of
-- internal/paths, task records those of internal/clients/asynctasks.
--
-- Files and the code that they model (paths from the repository's root):
--   Common, GoText      shared types, effects and lemmas; the functions of Go's strings and path packages
--                       that the code calls (TrimRight, Split, Clean, Join, Base, Dir)
--   Paths               internal/paths/paths.go and lengths.go
--   Tasks               internal/clients/asynctasks/asynctasks.go: the records, and decoded JSON
--   Locks               internal/locks/locks.go: Validate is validate, pathsOf is paths_of
--   Levels              access levels and the fields of a stat (internal/icat/row.go, internal/rods/view.go)
--   Permissions         internal/service/permissions.go: RepairPermissions is repair_permissions
--   Sharing             internal/service/sharing.go: Share and Unshare
--   Trash               internal/service/trash.go: PlanRestore is plan_restore
--   Jobs                internal/jobs: Run of the five jobs, and tickets under a path (internal/rods/tickets.go)
--   Worker              internal/worker/worker.go and post of progress.go: run
--   Worker.Progress     internal/worker/progress.go: the reporter, its sender and the stop, as steps
--   Worker.Shutdown     internal/worker/worker.go: Start and Shutdown, as steps
--   ScopeView           internal/rods/scope.go, viewitem.go, viewaccess.go; ScopeView.Changes is write.go
--                       and writemeta.go, ScopeView.Spec a scope that remembers nothing
--   Catalog             internal/icat/listing.go and uuidlisting.go
--   Stats               internal/service/statfields.go, avus.go, and StatOf of stat.go
--   Listing             internal/icat/row.go, internal/service/listing.go and pathlists.go
--   ApiErrors           internal/apierror: statuses; the codes are in Common.Codes
--   Handlers            internal/handlers/validators.go, and RequireUnlocked of deps.go
--   Handlers.Requests   internal/handlers/rename.go and tasks.go; Handlers.Trashing is trash.go
--   Handlers.Creates    internal/handlers/create.go: CreateDirectories is create_directories
--   Handlers.Uploads    internal/handlers/upload.go, uploadchecks.go, uploadcleanup.go, and
--                       internal/service/upload.go
--   Pool                internal/irodsclient/pool.go and evict.go; Pool.Leases is capacity.go
--   Chunks              internal/service/chunks.go
--
-- State. Code that calls other services is a function of a world W, in do blocks that stop at the first
-- error (Exec); the interfaces that it calls are records of such functions, taken as parameters. The
-- pool is explicit: its mutex makes each locked part one step, entries are numbers in a heap, and a
-- release that runs on its own goroutine is in a list until it ends. An interleaving is a sequence of
-- steps (Pool.Reach.Reach), so that a property of every reachable pool holds of all of them.
--
-- What is assumed of the outside stands in named records: Permissions.Laws.StoreLaws says what reading
-- and writing an access list does, Jobs.Safety.Spares which calls leave a property of the world alone,
-- Worker.Terminal.Recovers how often async-tasks may fail, ScopeView.Coherent.CatalogLaws what the
-- catalog answers, ScopeView.Spec.Quiet which changes a run's later
-- lookups must not meet, Handlers.Uploads.Atomic.Staging and
-- Handlers.Uploads.Cleanup.Truthful what the calls of an upload and of its cleanup do. Tests modules fill each with concrete
-- functions.
--
-- Bounds and fuel. Text is a list of bytes, and integers are natural numbers, or integers where the
-- code reads a sign; the code's counts stay far below 2^63. A timestamp in milliseconds and the plan of a
-- tabular page, whose numbers are the client's, wrap around. The walks up a path carry fuel for the length of the path. The search for a free name
-- is unbounded in the code and takes its fuel as an argument. The walk that makes a user own recreated
-- collections has the length of the path as fuel, and ends without a further call if it ran out.
-- A restore request whose search for a name runs out of fuel ends in an error of the model's own.
--
-- Not modelled: the other HTTP handlers, the encoding of requests and responses, the catalog's SQL, the
-- calls of go-irodsclient, the clients, AMQP, configuration, notifications, and logging. The pool's
-- waiting between two rounds of a lease and the reports of waits are left out, since they change no
-- count.
pub mod Common
pub mod GoText
pub mod Paths
pub mod Tasks
pub mod Locks
pub mod Levels
pub mod Permissions
pub mod Sharing
pub mod Jobs
pub mod Trash
pub mod Worker
pub mod Pool
pub mod Chunks
pub mod ScopeView
pub mod ApiErrors
pub mod Handlers
pub mod Catalog
pub mod Stats
pub mod Listing
