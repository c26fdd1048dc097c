-- ===== src/Examples/Database.antt =====
-- A database that keeps the rows of the registry in an association list.
use zkp_verifier.Common.{
  ◌≡◌, refl, ◌≢◌, ℕ, Bool, String, Option, none, some, List, [], ◌∷◌, Outcome, ok, err, Bytes, ◌==◌,
  string_eq, if◌then◌else◌, arith, Bool-cases, inl, inr, contains, NoRepeats, length, ltb,
}
use zkp_verifier.HashMap.{is_some}
use zkp_verifier.Database.{Rusqlite, Value, text, blob}
use zkp_verifier.Storage.{upsert_user, delete_user}
use zkp_verifier.Storage.Sqlite.{
  everywhere, at_user, fails, inserts, deletes, write_change, matching, unique_failed,
}

abbrev pub Rows : Type 0
Rows = List (String × Bytes)

abbrev pub row : Rows → String → Option Bytes
row [] j = none
row ((u, key) ∷ rows) j = if u == j then some key else row rows j

abbrev pub without : Rows → String → Rows
without [] u = []
without ((v, key) ∷ rows) u = let rest = without rows u in if v == u then rest else (v, key) ∷ rest

abbrev pub ids : Rows → List String
ids [] = []
ids ((u, key) ∷ rows) = if is_some (row rows u) then ids rows else u ∷ ids rows

abbrev pub upsert : Rows → List Value → Outcome String ℕ × Rows
upsert rows (text u ∷ blob key ∷ _) = (ok 1, (u, key) ∷ rows)
upsert rows _ = (err "invalid parameters", rows)

-- Without `ON CONFLICT`.
abbrev pub insert : Rows → List Value → Outcome String ℕ × Rows
insert rows (text u ∷ blob key ∷ _) =
    if is_some (row rows u) then (err unique_failed, rows) else (ok 1, (u, key) ∷ rows)
insert rows _ = (err "invalid parameters", rows)

abbrev pub delete : Rows → List Value → Outcome String ℕ × Rows
delete rows (text u ∷ []) = (ok (if is_some (row rows u) then 1 else 0), without rows u)
delete rows _ = (err "invalid parameters", rows)

abbrev pub execute_on : Rows → String → List Value → Outcome String ℕ × Rows
execute_on rows statement values =
    if statement == upsert_user
    then upsert rows values
    else if statement == delete_user
    then delete rows values
    else if statement == write_change (inserts fails)
    then insert rows values
    else if statement == write_change (deletes everywhere)
    then (ok (length (ids rows)), [])
    else (ok 0, rows)

abbrev pub key_of : Rows → List Value → Outcome String (Option Bytes)
key_of rows (text u ∷ []) = ok (row rows u)
key_of [] _ = ok none
key_of ((u, key) ∷ rows) _ = ok (some key)

abbrev pub selected : Rows → List Value → List String
selected rows (text u ∷ []) = matching at_user u (ids rows)
selected rows _ = ids rows

abbrev pub known : Rows → List Value → Outcome String Bool
known rows (text u ∷ []) = ok (is_some (row rows u))
known rows _ = ok (ltb 0 (length (ids rows)))

abbrev pub lists : Rusqlite
lists = record {
  Connection = Rows;
  open_file = λ path. err "unable to open database file";
  open_memory = ok [];
  execute = execute_on;
  query_blob = λ rows statement values. key_of rows values;
  exists = λ rows statement values. known rows values;
  query_texts = λ rows statement values. ok (selected rows values);
  query_count = λ rows statement values. ok (length (selected rows values));
}

pub row-without :
    (rows : Rows) (u j : String) → row (without rows u) j ≡ (if u == j then none else row rows j)
row-without [] u j = ground arith
row-without ((v, key) ∷ rows) u j = ground (
  arith,
  string_eq.beq_iff v u,
  string_eq.beq_iff u j,
  string_eq.beq_iff v j,
  row-without rows u j,
)

upsert-failed :
    (rows : Rows) (values : List Value) (j : String)
    → ((n : ℕ) → (upsert rows values).0 ≢ ok n)
    → row (upsert rows values).1 j ≡ row rows j
upsert-failed rows (text u ∷ blob key ∷ _) j h = absurd (h 1 refl)
upsert-failed rows _ j h = refl

delete-failed :
    (rows : Rows) (values : List Value) (j : String)
    → ((n : ℕ) → (delete rows values).0 ≢ ok n)
    → row (delete rows values).1 j ≡ row rows j
delete-failed rows (text u ∷ []) j h = absurd (h _ refl)
delete-failed rows _ j h = refl

insert-failed :
    (rows : Rows) (values : List Value) (j : String)
    → ((n : ℕ) → (insert rows values).0 ≢ ok n)
    → row (insert rows values).1 j ≡ row rows j
insert-failed rows (text u ∷ blob key ∷ _) j h = elim (Bool-cases (is_some (row rows u))) [
  | inl there ↦ rw there refl
  | inr new ↦ absurd (h 1 (rw new refl))
]
insert-failed rows _ j h = refl

pub execute_on-failed :
    (rows : Rows) (statement : String) (values : List Value) (j : String)
    → ((n : ℕ) → (execute_on rows statement values).0 ≢ ok n)
    → row (execute_on rows statement values).1 j ≡ row rows j
execute_on-failed rows statement values j h = elim (Bool-cases (statement == upsert_user)) [
  | inl first ↦ rw first (upsert-failed rows values j (rw first at h))
  | inr a ↦ elim (Bool-cases (statement == delete_user)) [
    | inl second ↦ rw (a, second) (delete-failed rows values j (rw (a, second) at h))
    | inr b ↦ elim (Bool-cases (statement == write_change (inserts fails))) [
      | inl third ↦ rw (a, b, third) (insert-failed rows values j (rw (a, b, third) at h))
      | inr c ↦ elim (Bool-cases (statement == write_change (deletes everywhere))) [
        | inl fourth ↦ absurd (h (length (ids rows)) (rw (a, b, c, fourth) refl))
        | inr d ↦ rw (a, b, c, d) refl
      ]
    ]
  ]
]

pub contains-ids : (rows : Rows) (u : String) → contains u (ids rows) ≡ is_some (row rows u)
contains-ids [] u = refl
contains-ids ((v, key) ∷ rows) u =
    ground (arith, string_eq.beq_iff v u, contains-ids rows v, contains-ids rows u)

pub NoRepeats-ids : (rows : Rows) → NoRepeats (ids rows)
NoRepeats-ids [] = tt
NoRepeats-ids ((v, key) ∷ rows) = ground (arith, contains-ids rows v, NoRepeats-ids rows)
