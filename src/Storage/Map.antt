-- ===== src/Storage/Map.antt =====
-- src/storage.rs: `UserRegistry` against a function from user ids to keys, over any sequence of calls
-- of its methods, of which each may fail.
pub mod Holds
pub mod Refines
use zkp_verifier.Common.{
  ℕ, ◌≡◌, ◌≢◌, String, Bool, true, false, Option, none, some, List, [], ◌∷◌, Outcome, ok, err, ◌==◌,
  string_eq, if◌then◌else◌, contains, NoRepeats, length,
}
use zkp_verifier.Common.Int.{ℤ}
use zkp_verifier.HashMap.{is_some}
use zkp_verifier.Curve.{Curve}
use zkp_verifier.Database.{Rusqlite}
use zkp_verifier.Storage.Sqlite.{unique_failed}
use zkp_verifier.Storage.{
  StorageError, database_error, decoding_error, get_public_key, register, remove, is_registered,
  list_users, count,
}

module _ (C : Curve) where
  -- A call of a method of `UserRegistry`, with the clock reading of `register`.
  pub data Op : Type 0 where
    registers : String → C.Point → ℤ → Op
    removes looks_up asks : String → Op
    lists counts : Op

  -- What it returns.
  pub data Answer : Type 0 where
    registered : Outcome StorageError (Unit {0}) → Answer
    removed known : Outcome StorageError Bool → Answer
    found : Outcome StorageError (Option C.Point) → Answer
    listed : Outcome StorageError (List String) → Answer
    counted : Outcome StorageError ℕ → Answer

  abbrev pub Keys : Type 0
  Keys = String → Option C.Point

  abbrev pub update : Keys → String → Option C.Point → Keys
  update f u w j = if u == j then w else f j

  -- The keys after a call: a call that fails changes nothing.
  abbrev pub next : Keys → Op → Answer → Keys
  next f (registers u pk now) (registered (ok _)) = update f u (some pk)
  next f (removes u) (removed (ok _)) = update f u none
  next f _ _ = f

  -- The users of the keys, each once.
  abbrev pub IsUsers : Keys → List String → Type 0
  IsUsers f users = NoRepeats users × ((u : String) → contains u users ≡ is_some (f u))

  -- What an answer says of the keys; a user who has a key can be registered again, and a lookup never
  -- fails by a key that cannot be decoded.
  abbrev pub Tells : Keys → Op → Answer → Type 0
  Tells f (registers u pk now) (registered (err e)) = e ≢ database_error unique_failed
  Tells f (removes u) (removed (ok b)) = b ≡ is_some (f u)
  Tells f (asks u) (known (ok b)) = b ≡ is_some (f u)
  Tells f (looks_up u) (found (ok key)) = key ≡ f u
  Tells f (looks_up u) (found (err (decoding_error e))) = ⊥
  Tells f lists (listed (ok users)) = IsUsers f users
  Tells f counts (counted (ok n)) = (users : List String) × IsUsers f users × (n ≡ length users)
  Tells f _ _ = Unit

  abbrev pub Meets : Keys → List (Op × Answer) → Type 0
  Meets f [] = Unit
  Meets f ((o, a) ∷ h) = Tells f o a × Meets (next f o a) h

  module _ (S : Rusqlite) where
    unfoldable pub perform : S.Connection → Op → Answer × S.Connection
    perform c (registers u pk now) = let (r, c') = register S C c u pk now in (registered r, c')
    perform c (removes u) = let (r, c') = remove S c u in (removed r, c')
    perform c (looks_up u) = (found (get_public_key S C c u), c)
    perform c (asks u) = (known (is_registered S c u), c)
    perform c lists = (listed (list_users S c), c)
    perform c counts = (counted (count S c), c)

    unfoldable pub history : S.Connection → List Op → List (Op × Answer)
    history c [] = []
    history c (o ∷ os) = let (a, c') = perform c o in (o, a) ∷ history c' os
