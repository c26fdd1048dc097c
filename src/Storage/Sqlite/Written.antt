-- ===== src/Storage/Sqlite/Written.antt =====
-- src/storage.rs: the statements of `UserRegistry` are those of the grammar, and mean what they say.
use zkp_verifier.Common.{
  ◌≡◌, refl, ◌≢◌, ◌↔◌, sym, ap, ◌∙◌, ℕ, String, Bool, true, false, Option, none, some, [], ◌∷◌,
  Outcome, ok, err, panic, Bytes, string_eq, if◌then◌else◌, contains, ltb, arith,
}
use mathlib.Core.Option.{some-injective}
use zkp_verifier.Common.Int.{ℤ, pos}
use zkp_verifier.HashMap.{is_some}
use zkp_verifier.Database.{Rusqlite, text, blob, integer}
use zkp_verifier.Storage.{
  create_table, upsert_user, select_key, select_one, delete_user, select_ids, select_count,
}
use zkp_verifier.Storage.Sql.{IsSql}
use zkp_verifier.Storage.Sqlite.{
  everywhere, at_user, updates, creates, inserts, deletes, keys, ones, user_ids, how_many,
  write_change, write_query, matching, unique_failed, IsSqlite,
}
use zkp_verifier.Storage.Sqlite.Matching.{matching-none, contains-matching, length-matching}

create_written : create_table ≡ write_change creates
create_written = refl

upsert_written : upsert_user ≡ write_change (inserts updates)
upsert_written = refl

delete_written : delete_user ≡ write_change (deletes at_user)
delete_written = refl

key_written : select_key ≡ write_query keys at_user
key_written = refl

one_written : select_one ≡ write_query ones at_user
one_written = refl

ids_written : select_ids ≡ write_query user_ids everywhere
ids_written = refl

count_written : select_count ≡ write_query how_many everywhere
count_written = refl

no_row : (r : Option Bytes) → is_some r ≡ false → none ≡ r
no_row none h = refl
no_row (some key) h = cc

one_if : (b : Bool) → ltb 0 (if b then 1 else 0) ≡ b
one_if true = refl
one_if false = refl

module _ (S : Rusqlite) (sqlite : IsSqlite S) where
  row_created :
      (c : S.Connection) (j : String) (r : Outcome String ℕ)
      → (S.execute c create_table []).0 ≡ r
      → sqlite.row (S.execute c create_table []).1 j ≡ sqlite.row c j
  row_created c j (ok n) h = sym (
      ap (λ rows. rows j) (some-injective _ _ (sqlite.execute-changed c creates "" [] (pos 0) n h)))
  row_created c j (err e) h = sqlite.execute-failed c create_table [] j (λ n done. cc)
  row_created c j panic h = sqlite.execute-failed c create_table [] j (λ n done. cc)

  known_row :
      (c : S.Connection) (u : String) (b : Bool)
      → (b ≡ false) ↔ (matching at_user u (sqlite.ids c) ≡ [])
      → b ≡ is_some (sqlite.row c u)
  known_row c u b h = ground (arith, h, matching-none u (sqlite.ids c), sqlite.ids-row c u)

  found_row :
      (c : S.Connection) (u : String) (found : Option Bytes)
      → S.query_blob c select_key (text u ∷ []) ≡ ok found
      → found ≡ sqlite.row c u
  found_row c u none h = no_row (sqlite.row c u) (
      sym (sqlite.ids-row c u)
      ∙ (matching-none u (sqlite.ids c)).0 (sqlite.query_blob-none c at_user u h))
  found_row c u (some key) h =
      let (j, there, at_j) = sqlite.query_blob-some c at_user u key h in
      sym at_j ∙ ap (sqlite.row c) (sym (contains-matching u j (sqlite.ids c) there))

  -- What the program's own statements do, by their text.
  pub IsSql-of_IsSqlite : IsSql S
  IsSql-of_IsSqlite = record {
    row = sqlite.row;
    row-upsert = λ c u j key now n h. sym (
        ap (λ rows. rows j)
          (some-injective _ _ (sqlite.execute-changed c (inserts updates) u key now n h)));
    row-delete = λ c u j n h. sym (
        ap (λ rows. rows j)
          (some-injective _ _ (sqlite.execute-changed c (deletes at_user) u [] (pos 0) n h)));
    delete_count = λ c u n h.
        ap (ltb 0) (sqlite.delete_count c at_user u n h)
        ∙ ap (ltb 0) (length-matching u (sqlite.ids c) (sqlite.ids-NoRepeats c))
        ∙ one_if (contains u (sqlite.ids c))
        ∙ sqlite.ids-row c u;
    row-create = λ c j. row_created c j _ refl;
    row-failed = sqlite.execute-failed;
    query_blob-row = found_row;
    exists-row = λ c u b h. known_row c u b (sqlite.exists-matching c at_user u b h);
    row-open_memory = sqlite.open_memory-row;
    ids = sqlite.ids;
    ids-NoRepeats = sqlite.ids-NoRepeats;
    ids-row = sqlite.ids-row;
    query_texts-ids = λ c users h. sqlite.query_texts-matching c everywhere "" users h;
    query_count-ids = λ c n h. sqlite.query_count-matching c everywhere "" n h;
  }

  -- An `INSERT` with `ON CONFLICT … DO UPDATE` does not fail by the primary key.
  pub upsert_user-ne-unique_failed :
      (c : S.Connection) (u : String) (key : Bytes) (now : ℤ)
      → (S.execute c upsert_user (text u ∷ blob key ∷ integer now ∷ [])).0 ≢ err unique_failed
  upsert_user-ne-unique_failed c u key now =
      λ h. cc (sqlite.execute-constraint c (inserts updates) u key now h)
