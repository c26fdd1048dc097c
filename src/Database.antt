-- ===== src/Database.antt =====
-- The crate `rusqlite`, as src/storage.rs uses it: the calls on a connection, each with the text of
-- its error, and apart from them what SQL promises of the program's statements.
use zkp_verifier.Common.{ℕ, String, Bool, List, Option, Outcome, Bytes, string_eq}
use zkp_verifier.Common.Int.{ℤ}

-- A bound parameter.
pub data Value : Type 0 where
  text : String → Value
  blob : Bytes → Value
  integer : ℤ → Value

pub record Rusqlite : Type 1 where
  pub Connection : Type 0
  -- `Connection::open` and `open_in_memory`.
  pub open_file : String → Outcome String Connection
  pub open_memory : Outcome String Connection
  -- `execute`: the count of rows that it changes, and the database after it.
  pub execute : Connection → String → List Value → Outcome String ℕ × Connection
  -- `query_row(…, |row| row.get(0)).optional()` at a column of bytes.
  pub query_blob : Connection → String → List Value → Outcome String (Option Bytes)
  -- `exists`, `query_map(…, |row| row.get(0))` with `collect`, and `query_row` at a count.
  pub exists : Connection → String → List Value → Outcome String Bool
  pub query_texts : Connection → String → List Value → Outcome String (List String)
  pub query_count : Connection → String → List Value → Outcome String ℕ
