-- ===== src/Lib.antt =====
-- flowd, a durable-execution engine in Go: a server keeps the event history of workflow runs in
-- Postgres, hands out workflow, activity and query tasks to workers by leased queues, and turns
-- the workers' answers into new events. This library models the engine's core, package
-- internal/history over the queries of internal/persistence/postgres/sqlc, the gRPC handlers in
-- front of it, and the part of the Go SDK that replays workflow code against a history.
--
-- Parts, and the files that model them:
--   Base           lists, tables and their order, Boolean tests on numbers, errors, and two monads: Tx for what
--                  runs inside a transaction (Base/Result), Io for statements in sequence (Base/Io)
--   Proto          the messages of api/proto/flow/api/v1, and the third-party functions the engine calls
--   Db             the database: the rows (sqlc/models.go), and one function for each query that the
--                  engine runs (sqlc/*.sql.go). Db/Leased is the queue mechanism that the three task
--                  tables share; Db/Dispatching follows a task from one dequeue to the next,
--                  its Due says when a task is due, its Reaped what a lost lease becomes
--   History        internal/history, a module per file: Append (append.go), Start (start.go), Signal
--                  (signal.go and cancel.go), Activity (activity_task.go), WorkflowTask and Dispatch
--                  (workflow_task.go), Timers (timers.go), Query (query.go and namespace.go), Listing
--                  (list.go), WorkflowQuery (workflow_query.go), Wake (util.go and the tail that the writers share), Store
--                  (store.go), Retry (retry.go), TaskToken (tasktoken.go), Notifier (notifier.go),
--                  Sharding (sharding.go)
--   History/System the server as a step relation, one constructor for each transaction that commits
--                  alone; History/Contiguity and History/Keeps carry an invariant through it, and
--                  History/Frames says what a transaction leaves alone
--   Matching       internal/matching: the long polls and a tick of the reaper
--   Frontend       internal/frontend: errors.go and payload.go, Keys (auth.go), Service (the handlers of
--                  service.go behind the interceptor), Query (QueryWorkflowExecution and its loop)
--   Sdk/Cache      sdk/worker/cache.go: the worker's cache of workflow executions
--   Sdk/Replayer   sdk/internal/replayer: an execution and its operations, Handlers (execution.go), Load (LoadHistory
--                  and LoadNewEvents), Run (dispatcher.go, and the end of runWorkflowFunc). Parks, Ready,
--                  Later, Past and Sticky carry the comparison of a kept execution with a replay
--   Sdk/Worker     sdk/worker/worker.go and replay.go: Tasks (processWorkflowTask), Queries
--                  (processQueryTask), Activities (processActivityTask), Golden (ReplayWorkflowHistory)
--   Scenarios      concrete servers and databases, where the theorems are applied
--
-- Correspondence. A table is a list of rows in the order of insertion; a statement is a function on
-- the database, with the errors of its constraints. A transaction is a function Tx; with_tx commits
-- it or leaves the database as it was. A handler takes a State, the database and the in-memory
-- notifier, and gives its answer and the next State. Sources of chance and time (now(), gen_random_uuid(),
-- uuid.NewString(), the rows that FOR UPDATE SKIP LOCKED skips) are arguments. Concurrency: the
-- steps of several handlers interleave as sequences of Step; the handlers that retry after a lost
-- race take the other transactions as an argument `race`.
--
-- Workflow code is a tree of its calls of package workflow, with what comes after a call as a function
-- of what the call gives; a goroutine that is parked in Yield is the code that is left of it. The
-- variables that the workflow's functions share are of any type.
--
-- Numbers. Ids are natural numbers. Durations are int64, kept as their two's complement bit pattern
-- with the wrap-around of a product written out, and attempts are compared as int32; the sequences of ids
-- do not overflow in the model. A page token of GetHistory is read as an int64, where a negative one is as 0.
-- The retry of lost races has five attempts, which is the code's bound. The loops that wait, the polls
-- and QueryWorkflowExecution, run over the list of their attempts before the deadline, of any length;
-- the deadline of a query passes in the select or is met by the next read, an argument of the loop.
--
-- Third-party code is a parameter: Go's strings (Frontend/Keys.Strings), the database's comparison of
-- rows and the JSON of cursors (History/Listing.ListLibrary), protobuf, UUID text, FNV-1a and float64
-- powers (Proto.External), JSON and HMAC-SHA256 (TokenCodec). What a theorem needs of them is among its hypotheses.
--
-- Not modelled: errors of the database connection; the waiting of long polls and the tickers
-- (goroutines and clocks around the modelled operations); DescribeWorkflowExecution and ListNamespaces,
-- and the gRPC handlers of these, of the list of executions and of the polls; the SDK's polling loops,
-- its client, its registration by reflection, and signal and query handlers that call package workflow
-- themselves; the web UI, the command-line tools; generated code.
pub mod Base
pub mod Proto
pub mod Db
pub mod History
pub mod Matching
pub mod Frontend
pub mod Sdk
pub mod Scenarios
