-- ===== src/Examples/Disk.antt =====
-- A disk that keeps its files in an association list, and a database that cannot be written.
use zkp_verifier.Common.{
  ◌≡◌, refl, sym, String, Option, none, some, List, [], ◌∷◌, Outcome, ok, err, Bytes, string_eq,
  ==_refl, ok_inj,
}
use zkp_verifier.HashMap.{is_some}
use zkp_verifier.Database.{Rusqlite}
use zkp_verifier.FileSystem.{FileSystem, IsDisk}
use zkp_verifier.Storage.Sql.{IsSql}
use zkp_verifier.Examples.Database.{ids, contains-ids, NoRepeats-ids, row, key_of, known, Rows}

abbrev pub Files : Type 0
Files = List (String × Bytes)

abbrev pub text_of : Option Bytes → Outcome String Bytes
text_of none = err "No such file or directory"
text_of (some text) = ok text

abbrev pub files : FileSystem
files = record {
  Disk = Files;
  is_there = λ d path. is_some (row d path);
  read_to_string = λ d path. text_of (row d path);
  write = λ d path text. (ok tt, (path, text) ∷ d);
}

row_first : (d : Files) (path : String) (text : Bytes) → row ((path, text) ∷ d) path ≡ some text
row_first d path text = rw (==_refl path) refl

pub files-IsDisk : IsDisk files
files-IsDisk = record {
  is_there-write = λ d path text h. rw (row_first d path text) refl;
  read-write = λ d path text read h k. sym (ok_inj (rw (row_first d path text) at k));
}

abbrev pub locked : Rusqlite
locked = record {
  Connection = Rows;
  open_file = λ path. ok [];
  open_memory = ok [];
  execute = λ rows statement values. (err "database is locked", rows);
  query_blob = λ rows statement values. key_of rows values;
  exists = λ rows statement values. known rows values;
  query_texts = λ rows statement values. err "no such statement";
  query_count = λ rows statement values. err "no such statement";
}

pub locked-IsSql : IsSql locked
locked-IsSql = record {
  row = row;
  row-upsert = λ c u j key now n h. cc h;
  row-delete = λ c u j n h. cc h;
  delete_count = λ c u n h. cc h;
  row-create = λ c j. refl;
  row-failed = λ c statement values j h. refl;
  query_blob-row = λ c u found h. sym (ok_inj h);
  exists-row = λ c u b h. sym (ok_inj h);
  row-open_memory = λ c j h. cc h;
  ids = ids;
  ids-NoRepeats = NoRepeats-ids;
  ids-row = contains-ids;
  query_texts-ids = λ c users h. cc h;
  query_count-ids = λ c n h. cc h;
}
