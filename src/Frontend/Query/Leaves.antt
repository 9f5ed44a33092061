-- ===== src/Frontend/Query/Leaves.antt =====
-- What is left of a query's row after the wait for its answer.
use flowd_engine.Base.{ℕ, ◌≡◌, ◌⊎◌}
use flowd_engine.Base.Result.{Result, err, no_rows}
use flowd_engine.Db.Types.{Db}
use flowd_engine.Db.QueryTasks.{get_query_task}
use flowd_engine.History.Store.{Store}
use flowd_engine.Frontend.{internal_error}
use flowd_engine.Frontend.Query.{QueryReply, query_status}

-- The row of the query is gone, or a read of the row has failed, which is codes.Internal.
abbrev pub IsLeft : ℕ → ℕ → QueryReply × Db → Type 0
IsLeft ns id (reply, db) =
    (get_query_task id ns db ≡ err no_rows) ⊎ (reply ≡ query_status internal_error)
