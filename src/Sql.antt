-- ===== src/Sql.antt =====
-- The parts of pgx and PostgreSQL that the ledger code (go-core/internal/ledger) is written
-- against: a pool, one open transaction, and statements that may fail.
--
-- A handler is an action on a `World`. `db` is what is committed, `work` the view of the open
-- transaction; `Begin` copies the first to the second, `Commit` the second to the first, and a
-- `Rollback` (deferred in every handler) leaves `db` as it is. Which statements the server fails
-- is not the program's choice: `faults` lists, for the calls to come, what each one meets. Nor are
-- the values of `gen_random_uuid()` (`uuid`, by the number of calls so far) and of `NOW()`.
mod Actions
pub mod Quiet
pub mod Triple
pub mod Pooled
pub mod Leaves
pub use Actions.{
  SqlError, no_rows, unique_violation, check_violation, in_failed_tx, unavailable, Error, plain,
  wrapped, Result, ok, err, Stamp, Query, World, M, reading, writing,
}
unfoldable pub use Actions.{
  pure, raise, guard, recover, time_now, on_tx, on_pool, begin, rollback, commit, wrap, ◌>>=◌, ◌>>◌,
}
