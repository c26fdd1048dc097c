-- ===== src/Storage/Sql.antt =====
-- What SQL promises of the statements of src/storage.rs, in terms of the key bytes that stand with
-- each user id. A statement may fail, and then it changes nothing.
-- Storage/Sqlite/Written.antt gets these laws from the grammar of the statements.
use zkp_verifier.Common.{
  ℕ, ◌≡◌, ◌≢◌, String, Bool, Option, none, some, List, [], ◌∷◌, ok, Bytes, ◌==◌, string_eq, ltb,
  if◌then◌else◌, contains, NoRepeats, length,
}
use zkp_verifier.Common.Int.{ℤ}
use zkp_verifier.HashMap.{is_some}
use zkp_verifier.Database.{Rusqlite, Value, text, blob, integer}
use zkp_verifier.Storage.{
  create_table, upsert_user, select_key, select_one, delete_user, select_ids, select_count,
}

pub record IsSql (S : Rusqlite) : Type 0 where
  pub row : S.Connection → String → Option Bytes
  -- `PRIMARY KEY` and `ON CONFLICT … DO UPDATE`: one row for each user, replaced.
  pub row-upsert :
      (c : S.Connection) (u j : String) (key : Bytes) (now : ℤ) (n : ℕ)
      → (S.execute c upsert_user (text u ∷ blob key ∷ integer now ∷ [])).0 ≡ ok n
      → row (S.execute c upsert_user (text u ∷ blob key ∷ integer now ∷ [])).1 j
        ≡ (if u == j then some key else row c j)
  pub row-delete :
      (c : S.Connection) (u j : String) (n : ℕ)
      → (S.execute c delete_user (text u ∷ [])).0 ≡ ok n
      → row (S.execute c delete_user (text u ∷ [])).1 j ≡ (if u == j then none else row c j)
  pub delete_count :
      (c : S.Connection) (u : String) (n : ℕ)
      → (S.execute c delete_user (text u ∷ [])).0 ≡ ok n
      → ltb 0 n ≡ is_some (row c u)
  pub row-create : (c : S.Connection) (j : String) → row (S.execute c create_table []).1 j ≡ row c j
  pub row-failed :
      (c : S.Connection) (statement : String) (values : List Value) (j : String)
      → ((n : ℕ) → (S.execute c statement values).0 ≢ ok n)
      → row (S.execute c statement values).1 j ≡ row c j
  pub query_blob-row :
      (c : S.Connection) (u : String) (found : Option Bytes)
      → S.query_blob c select_key (text u ∷ []) ≡ ok found
      → found ≡ row c u
  pub exists-row :
      (c : S.Connection) (u : String) (b : Bool)
      → S.exists c select_one (text u ∷ []) ≡ ok b
      → b ≡ is_some (row c u)
  -- A database in memory starts without rows.
  pub row-open_memory : (c : S.Connection) (j : String) → S.open_memory ≡ ok c → row c j ≡ none
  -- The ids of the rows, each once, which are listed and counted.
  pub ids : S.Connection → List String
  pub ids-NoRepeats : (c : S.Connection) → NoRepeats (ids c)
  pub ids-row : (c : S.Connection) (u : String) → contains u (ids c) ≡ is_some (row c u)
  pub query_texts-ids :
      (c : S.Connection) (users : List String)
      → S.query_texts c select_ids [] ≡ ok users
      → users ≡ ids c
  pub query_count-ids :
      (c : S.Connection) (n : ℕ) → S.query_count c select_count [] ≡ ok n → n ≡ length (ids c)
