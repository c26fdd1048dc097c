-- ===== src/FileSystem.antt =====
-- `std::fs`, as the programs under src/bin use it. A file's text is the list of its bytes in UTF-8.
use zkp_verifier.Common.{◌≡◌, String, Bool, true, Outcome, ok, Bytes}

pub record FileSystem : Type 1 where
  pub Disk : Type 0
  -- `fs::metadata(path).is_ok()`
  pub is_there : Disk → String → Bool
  pub read_to_string : Disk → String → Outcome String Bytes
  pub write : Disk → String → Bytes → Outcome String (Unit {0}) × Disk

-- After a write that succeeds the file is there, and a read that succeeds gives what was written.
pub record IsDisk (F : FileSystem) : Type 0 where
  pub is_there-write :
      (d : F.Disk) (path : String) (text : Bytes)
      → (F.write d path text).0 ≡ ok tt
      → F.is_there (F.write d path text).1 path ≡ true
  pub read-write :
      (d : F.Disk) (path : String) (text read : Bytes)
      → (F.write d path text).0 ≡ ok tt
      → F.read_to_string (F.write d path text).1 path ≡ ok read
      → read ≡ text
