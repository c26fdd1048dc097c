-- ===== src/Storage.antt =====
-- src/storage.rs: `UserRegistry`, whose methods are SQL statements on a connection. The clock
-- reading of `register` is an argument. A method that changes the database returns it. The line breaks
-- and the indentation in a statement are written as one space.
pub mod Sql
pub mod Sqlite
pub mod Registry
pub mod Map
use zkp_verifier.Common.{
  ℕ, ◌<◌, String, ◌<>◌, Bool, true, false, Option, none, some, List, [], ◌∷◌, Outcome, ok, err,
  panic, ◌>>=◌, map_err, Bytes, ltb,
}
use zkp_verifier.Common.Int.{ℤ}
use zkp_verifier.Database.{Rusqlite, Value, text, blob, integer}
use zkp_verifier.Curve.{Curve}
use zkp_verifier.Proof.{ZkpError}
use zkp_verifier.Proof
use zkp_verifier.Engine.{public_to_bytes, public_from_bytes}

-- An `rusqlite::Error` is known by its text.
pub data StorageError : Type 0 where
  database_error : String → StorageError
  decoding_error : String → StorageError

unfoldable pub display : StorageError → String
display (database_error e) = "Database error: " <> e
display (decoding_error e) = "Public key decoding error: " <> e

abbrev pub create_table : String
create_table =
    "CREATE TABLE IF NOT EXISTS user_registry (user_id TEXT PRIMARY KEY, public_key BLOB NOT NULL, registered_at INTEGER NOT NULL)"

abbrev pub upsert_user : String
upsert_user =
    "INSERT INTO user_registry (user_id, public_key, registered_at) VALUES (?1, ?2, ?3) ON CONFLICT(user_id) DO UPDATE SET public_key = ?2, registered_at = ?3"

abbrev pub select_key : String
select_key = "SELECT public_key FROM user_registry WHERE user_id = ?1"

abbrev pub select_one : String
select_one = "SELECT 1 FROM user_registry WHERE user_id = ?1"

abbrev pub delete_user : String
delete_user = "DELETE FROM user_registry WHERE user_id = ?1"

abbrev pub select_ids : String
select_ids = "SELECT user_id FROM user_registry ORDER BY user_id ASC"

abbrev pub select_count : String
select_count = "SELECT COUNT(*) FROM user_registry"

-- `?` on a call of the crate.
abbrev pub db {ℓ} : {A : Type ℓ} → Outcome String A → Outcome StorageError A
db = map_err database_error

module _ (C : Curve) where
  -- The `match` on the row that was found.
  unfoldable pub decode_key : Option Bytes → Outcome StorageError (Option C.Point)
  decode_key none = ok none
  decode_key (some bytes) = do
    pk ← map_err (λ e. decoding_error (Proof.display e)) (public_from_bytes C bytes)
    ok (some pk)

module _ (S : Rusqlite) where
  open S use {
    Connection, open_file, open_memory, execute, query_blob, exists, query_texts, query_count,
  }

  unfoldable pub init : Connection → Outcome StorageError Connection
  init conn = let (r, conn') = execute conn create_table [] in do _ ← db r; ok conn'

  unfoldable pub open_path : String → Outcome StorageError Connection
  unfolding init
  open_path path = do conn ← db (open_file path); init conn

  unfoldable pub in_memory : Outcome StorageError Connection
  unfolding init
  in_memory = do conn ← db open_memory; init conn

  unfoldable pub is_registered : Connection → String → Outcome StorageError Bool
  is_registered conn user_id = db (exists conn select_one (text user_id ∷ []))

  unfoldable pub remove : Connection → String → Outcome StorageError Bool × Connection
  remove conn user_id =
      let (r, conn') = execute conn delete_user (text user_id ∷ []) in
      (do count ← db r; ok (ltb 0 count), conn')

  unfoldable pub list_users : Connection → Outcome StorageError (List String)
  list_users conn = db (query_texts conn select_ids [])

  unfoldable pub count : Connection → Outcome StorageError ℕ
  count conn = db (query_count conn select_count [])

  module _ (C : Curve) where
    unfoldable pub register :
        Connection → String → C.Point → ℤ → Outcome StorageError (Unit {0}) × Connection
    register conn user_id public_key now =
        let (r, conn') =
          execute conn upsert_user
            (text user_id ∷ blob (public_to_bytes C public_key) ∷ integer now ∷ []) in
        (do _ ← db r; ok tt, conn')

    unfoldable pub get_public_key : Connection → String → Outcome StorageError (Option C.Point)
    unfolding decode_key
    get_public_key conn user_id = do
      pk_bytes ← db (query_blob conn select_key (text user_id ∷ []))
      decode_key C pk_bytes
