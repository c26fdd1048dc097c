-- ===== src/Examples/Sqlite.antt =====
-- The database of lists does what SQLite documents of the grammar of statements.
use zkp_verifier.Common.{
  ◌≡◌, refl, ◌↔◌, ap, ◌∙◌, ℕ, Bool, true, false, String, none, some, List, [], ◌∷◌, ok, err, Bytes,
  string_eq, if◌then◌else◌, arith, Bool-cases, inl, inr, sym, ok_inj, contains, length, ltb,
  ==_refl,
}
use mathlib.Core.Path.{fun_ext}
use zkp_verifier.Common.Int.{ℤ}
use zkp_verifier.HashMap.{is_some}
use zkp_verifier.Database.{text, blob, integer}
use zkp_verifier.Storage.Sql.{IsSql}
use zkp_verifier.Storage.Sqlite.{
  Filter, everywhere, at_user, fails, updates, Change, creates, inserts, deletes, write_change,
  filter_values, change_values, changed, matching, unique_failed, IsSqlite,
}
use zkp_verifier.Storage.Sqlite.Matching.{matching-none, length-matching}
use zkp_verifier.Storage.Sqlite.Written.{IsSql-of_IsSqlite}
use zkp_verifier.Examples.Database.{
  Rows, row, ids, insert, execute_on, key_of, selected, known, lists, row-without,
  execute_on-failed, contains-ids, NoRepeats-ids,
}

inserted :
    (rows : Rows) (u : String) (key : Bytes) (n : ℕ) (now : ℤ)
    → (insert rows (text u ∷ blob key ∷ integer now ∷ [])).0 ≡ ok n
    → changed (inserts fails) u key (row rows)
      ≡ some (row (insert rows (text u ∷ blob key ∷ integer now ∷ [])).1)
inserted rows u key n now h = elim (Bool-cases (is_some (row rows u))) [
  | inl there ↦ cc (rw there at h)
  | inr new ↦ rw new refl
]

not_inserted :
    (rows : Rows) (u : String) (key : Bytes) (now : ℤ)
    → (insert rows (text u ∷ blob key ∷ integer now ∷ [])).0 ≡ err unique_failed
    → changed (inserts fails) u key (row rows) ≡ none
not_inserted rows u key now h = elim (Bool-cases (is_some (row rows u))) [
  | inl there ↦ rw there refl
  | inr new ↦ cc (rw new at h)
]

execute_on-changed :
    (rows : Rows) (s : Change) (u : String) (key : Bytes) (now : ℤ) (n : ℕ)
    → (execute_on rows (write_change s) (change_values s u key now)).0 ≡ ok n
    → changed s u key (row rows)
      ≡ some (row (execute_on rows (write_change s) (change_values s u key now)).1)
unfolding string_eq
execute_on-changed rows creates u key now n h = refl
execute_on-changed rows (inserts updates) u key now n h = refl
execute_on-changed rows (inserts fails) u key now n h = inserted rows u key n now h
execute_on-changed rows (deletes everywhere) u key now n h = refl
execute_on-changed rows (deletes at_user) u key now n h =
    ap some (fun_ext (λ j. sym (row-without rows u j)))

execute_on-constraint :
    (rows : Rows) (s : Change) (u : String) (key : Bytes) (now : ℤ)
    → (execute_on rows (write_change s) (change_values s u key now)).0 ≡ err unique_failed
    → changed s u key (row rows) ≡ none
unfolding string_eq
execute_on-constraint rows creates u key now h = cc
execute_on-constraint rows (inserts updates) u key now h = cc
execute_on-constraint rows (inserts fails) u key now h = not_inserted rows u key now h
execute_on-constraint rows (deletes everywhere) u key now h = cc
execute_on-constraint rows (deletes at_user) u key now h = cc

execute_on-count :
    (rows : Rows) (f : Filter) (u : String) (n : ℕ)
    → (execute_on rows (write_change (deletes f)) (filter_values f u)).0 ≡ ok n
    → n ≡ length (matching f u (ids rows))
unfolding string_eq
execute_on-count rows everywhere u n h = sym (ok_inj h)
execute_on-count rows at_user u n h =
    sym (ok_inj h)
    ∙ ap (λ b. if b then 1 else 0) (sym (contains-ids rows u))
    ∙ sym (length-matching u (ids rows) (NoRepeats-ids rows))

no_match : (rows : Rows) (u : String) → row rows u ≡ none → matching at_user u (ids rows) ≡ []
no_match rows u h = (matching-none u (ids rows)).1 (contains-ids rows u ∙ ap is_some h)

key_of-none :
    (rows : Rows) (f : Filter) (u : String)
    → key_of rows (filter_values f u) ≡ ok none
    → matching f u (ids rows) ≡ []
key_of-none [] everywhere u h = refl
key_of-none ((v, key) ∷ rows) everywhere u h = cc
key_of-none rows at_user u h = no_match rows u (ok_inj h)

-- The user of a row is among the ids, and passes the filter for itself.
row-contains :
    (rows : Rows) (u : String) (key : Bytes) → row rows u ≡ some key → contains u (ids rows) ≡ true
row-contains rows u key h = contains-ids rows u ∙ ap is_some h

contains_itself :
    (u : String) (users : List String)
    → contains u users ≡ true
    → contains u (matching at_user u users) ≡ true
contains_itself u [] h = h
contains_itself u (j ∷ users) h = ground (arith, contains_itself u users)

key_of-some :
    (rows : Rows) (f : Filter) (u : String) (key : Bytes)
    → key_of rows (filter_values f u) ≡ ok (some key)
    → (j : String) × (contains j (matching f u (ids rows)) ≡ true) × (row rows j ≡ some key)
key_of-some [] everywhere u key h = cc
key_of-some ((v, first) ∷ rows) everywhere u key h =
    let at_v : row ((v, first) ∷ rows) v ≡ some key = rw (==_refl v) (ok_inj h) in
    (v, row-contains ((v, first) ∷ rows) v key at_v, at_v)
key_of-some rows at_user u key h =
    (u, contains_itself u (ids rows) (row-contains rows u key (ok_inj h)), ok_inj h)

known-matching :
    (rows : Rows) (f : Filter) (u : String) (b : Bool)
    → known rows (filter_values f u) ≡ ok b
    → (b ≡ false) ↔ (matching f u (ids rows) ≡ [])
known-matching rows everywhere u b h = rw (← ok_inj {E = String} h) (no_ids (ids rows))
  where
    no_ids : (users : List String) → (ltb 0 (length users) ≡ false) ↔ (users ≡ [])
    no_ids [] = (λ e. refl, λ e. refl)
    no_ids (u ∷ users) = ground arith
known-matching rows at_user u b h =
    ground (arith, ok_inj {E = String} h, contains-ids rows u, matching-none u (ids rows))

selected-matching :
    (rows : Rows) (f : Filter) (u : String)
    → selected rows (filter_values f u) ≡ matching f u (ids rows)
selected-matching rows everywhere u = refl
selected-matching rows at_user u = refl

pub lists-IsSqlite : IsSqlite lists
lists-IsSqlite = record {
  row = row;
  ids = ids;
  ids-NoRepeats = NoRepeats-ids;
  ids-row = contains-ids;
  execute-changed = execute_on-changed;
  execute-constraint = execute_on-constraint;
  delete_count = execute_on-count;
  execute-failed = execute_on-failed;
  query_blob-none = key_of-none;
  query_blob-some = key_of-some;
  exists-matching = known-matching;
  query_texts-matching = λ c f u users h. sym (ok_inj h) ∙ selected-matching c f u;
  query_count-matching = λ c f u n h. sym (ok_inj h) ∙ ap length (selected-matching c f u);
  open_memory-row = λ c j h. rw (← ok_inj {E = String} h) refl;
}

pub lists-IsSql : IsSql lists
lists-IsSql = IsSql-of_IsSqlite lists lists-IsSqlite
