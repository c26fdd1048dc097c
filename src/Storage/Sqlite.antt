-- ===== src/Storage/Sqlite.antt =====
-- The SQL statements on the table of src/storage.rs, as a grammar: how each is written and what it
-- means on the rows of a table. What SQLite documents of them is stated of every statement of the
-- grammar, those that the program does not use included. The constants of src/storage.rs are found
-- in the grammar by their text.
pub mod Matching
pub mod Written
use zkp_verifier.Common.{
  ℕ, ◌≡◌, ◌≢◌, ◌↔◌, String, ◌<>◌, Bool, true, false, Option, none, some, List, [], ◌∷◌, ok, err,
  Bytes, ◌==◌, string_eq, if◌then◌else◌, contains, NoRepeats, length,
}
use zkp_verifier.Common.Int.{ℤ}
use zkp_verifier.HashMap.{is_some}
use zkp_verifier.Database.{Rusqlite, Value, text, blob, integer}

-- The rows that a statement is about.
pub data Filter : Type 0 where
  everywhere at_user : Filter

-- What an `INSERT` does with a row that has the user's id.
pub data OnConflict : Type 0 where
  fails updates : OnConflict

-- What `execute` is given.
pub data Change : Type 0 where
  creates : Change
  inserts : OnConflict → Change
  deletes : Filter → Change

-- What a `SELECT` asks of the rows.
pub data Columns : Type 0 where
  keys ones user_ids how_many : Columns

abbrev pub write_filter : Filter → String
write_filter everywhere = ""
write_filter at_user = " WHERE user_id = ?1"

abbrev pub write_conflict : OnConflict → String
write_conflict fails = ""
write_conflict updates = " ON CONFLICT(user_id) DO UPDATE SET public_key = ?2, registered_at = ?3"

abbrev pub write_change : Change → String
write_change creates =
    "CREATE TABLE IF NOT EXISTS user_registry (user_id TEXT PRIMARY KEY, public_key BLOB NOT NULL, registered_at INTEGER NOT NULL)"
write_change (inserts k) =
    "INSERT INTO user_registry (user_id, public_key, registered_at) VALUES (?1, ?2, ?3)"
    <> write_conflict k
write_change (deletes f) = "DELETE FROM user_registry" <> write_filter f

abbrev pub write_columns : Columns → String
write_columns keys = "public_key"
write_columns ones = "1"
write_columns user_ids = "user_id"
write_columns how_many = "COUNT(*)"

-- The ids are asked for in their order.
abbrev pub write_order : Columns → String
write_order user_ids = " ORDER BY user_id ASC"
write_order _ = ""

abbrev pub write_query : Columns → Filter → String
write_query k f =
    "SELECT " <> write_columns k <> " FROM user_registry" <> write_filter f <> write_order k

abbrev pub filter_values : Filter → String → List Value
filter_values everywhere u = []
filter_values at_user u = text u ∷ []

abbrev pub change_values : Change → String → Bytes → ℤ → List Value
change_values creates u key now = []
change_values (inserts k) u key now = text u ∷ blob key ∷ integer now ∷ []
change_values (deletes f) u key now = filter_values f u

-- The key bytes that stand with each user id.
abbrev pub Rows : Type 0
Rows = String → Option Bytes

-- The rows after a change, or none if the primary key forbids it.
abbrev pub changed : Change → String → Bytes → Rows → Option Rows
changed creates u key rows = some rows
changed (inserts updates) u key rows = some (λ j. if u == j then some key else rows j)
changed (inserts fails) u key rows =
    if is_some (rows u) then none else some (λ j. if u == j then some key else rows j)
changed (deletes everywhere) u key rows = some (λ j. none)
changed (deletes at_user) u key rows = some (λ j. if u == j then none else rows j)

-- The ids of the rows that a statement is about, among all ids.
abbrev pub matching : Filter → String → List String → List String
matching everywhere u ids = ids
matching at_user u [] = []
matching at_user u (j ∷ ids) =
    let rest = matching at_user u ids in if j == u then j ∷ rest else rest

abbrev pub unique_failed : String
unique_failed = "UNIQUE constraint failed: user_registry.user_id"

-- A statement may fail, and then it changes nothing.
pub record IsSqlite (S : Rusqlite) : Type 0 where
  pub row : S.Connection → Rows
  -- The ids of the rows in ascending order, each once by the primary key.
  pub ids : S.Connection → List String
  pub ids-NoRepeats : (c : S.Connection) → NoRepeats (ids c)
  pub ids-row : (c : S.Connection) (u : String) → contains u (ids c) ≡ is_some (row c u)
  pub execute-changed :
      (c : S.Connection) (s : Change) (u : String) (key : Bytes) (now : ℤ) (n : ℕ)
      → (S.execute c (write_change s) (change_values s u key now)).0 ≡ ok n
      → changed s u key (row c)
        ≡ some (row (S.execute c (write_change s) (change_values s u key now)).1)
  pub execute-constraint :
      (c : S.Connection) (s : Change) (u : String) (key : Bytes) (now : ℤ)
      → (S.execute c (write_change s) (change_values s u key now)).0 ≡ err unique_failed
      → changed s u key (row c) ≡ none
  pub delete_count :
      (c : S.Connection) (f : Filter) (u : String) (n : ℕ)
      → (S.execute c (write_change (deletes f)) (filter_values f u)).0 ≡ ok n
      → n ≡ length (matching f u (ids c))
  pub execute-failed :
      (c : S.Connection) (statement : String) (values : List Value) (j : String)
      → ((n : ℕ) → (S.execute c statement values).0 ≢ ok n)
      → row (S.execute c statement values).1 j ≡ row c j
  -- The key of one of the rows, if there are any.
  pub query_blob-none :
      (c : S.Connection) (f : Filter) (u : String)
      → S.query_blob c (write_query keys f) (filter_values f u) ≡ ok none
      → matching f u (ids c) ≡ []
  pub query_blob-some :
      (c : S.Connection) (f : Filter) (u : String) (key : Bytes)
      → S.query_blob c (write_query keys f) (filter_values f u) ≡ ok (some key)
      → (j : String) × (contains j (matching f u (ids c)) ≡ true) × (row c j ≡ some key)
  pub exists-matching :
      (c : S.Connection) (f : Filter) (u : String) (b : Bool)
      → S.exists c (write_query ones f) (filter_values f u) ≡ ok b
      → (b ≡ false) ↔ (matching f u (ids c) ≡ [])
  pub query_texts-matching :
      (c : S.Connection) (f : Filter) (u : String) (users : List String)
      → S.query_texts c (write_query user_ids f) (filter_values f u) ≡ ok users
      → users ≡ matching f u (ids c)
  pub query_count-matching :
      (c : S.Connection) (f : Filter) (u : String) (n : ℕ)
      → S.query_count c (write_query how_many f) (filter_values f u) ≡ ok n
      → n ≡ length (matching f u (ids c))
  -- A database in memory starts without rows.
  pub open_memory-row : (c : S.Connection) (j : String) → S.open_memory ≡ ok c → row c j ≡ none
