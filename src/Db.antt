-- ===== src/Db.antt =====
-- The Postgres database behind the engine: the rows, and one function for each query of
-- internal/persistence/postgres/queries (the Go methods of sqlc/*.sql.go). A query that an
-- error of the connection would break is not modelled: each runs as its SQL says.
pub mod Types
pub mod Leased
pub mod Namespaces
pub mod Executions
pub mod Events
pub mod WorkflowTasks
pub mod ActivityTasks
pub mod QueryTasks
pub mod Timers
pub mod Dispatching
