-- ===== src/Programs.antt =====
-- src/bin: the programs behind their options. What they print is left out but for the responses. The
-- random draws, the clocks, and what the network and the database file give are arguments.
pub mod UserClient
pub mod Enroll
pub mod KafkaProver
pub mod Keys
pub mod Enrolled
pub mod Responses
pub mod Login
pub mod NoPanic
pub mod Servers
pub mod Serving
pub mod KafkaReplay
pub mod Lockout
pub mod Takeover
pub mod Replayed
use zkp_verifier.Common.{
  String, ◌<>◌, Bool, Option, none, some, Outcome, ok, err, panic, ◌>>=◌, map_err, if◌then◌else◌,
}
use zkp_verifier.Common.Int.{ℤ}
use zkp_verifier.Curve.{Curve}
use zkp_verifier.Database.{Rusqlite}
use zkp_verifier.FileSystem.{FileSystem}
use zkp_verifier.KeyFile.{hex_string, hex_decode}
use zkp_verifier.KeyFile.Trim.{trim}
use zkp_verifier.Proof.{ZkpError}
use zkp_verifier.Storage.{StorageError, register}
use zkp_verifier.Kafka.{KafkaError}
use zkp_verifier.Engine.{public_key, secret_to_bytes, secret_from_bytes}

-- The `Box<dyn Error>` of `main`.
pub data MainError : Type 0 where
  zkp_failed : ZkpError → MainError
  storage_failed : StorageError → MainError
  kafka_failed : KafkaError → MainError
  io_failed : String → MainError
  parse_failed : String → MainError

-- `format!("{}.key", user_id)`
abbrev pub key_file : String → String
key_file user_id = user_id <> ".key"

module _ (F : FileSystem) (C : Curve) where
  -- The first branch of the key management: the key of an existing file.
  unfoldable pub load_key : F.Disk → String → Outcome MainError C.Scalar
  load_key disk path = do
    hex ← map_err io_failed (F.read_to_string disk path)
    bytes ← map_err parse_failed (hex_decode (trim hex))
    map_err zkp_failed (secret_from_bytes C bytes)

  module _ (S : Rusqlite) where
    -- What a program meets: the disk, the key that the random generator would draw, the clock of
    -- `register`, and what `UserRegistry::open` gives.
    pub record Session : Type 0 where
      pub disk : F.Disk
      pub uuid : String
      pub fresh_key : C.Scalar
      pub now : ℤ
      pub opened : Outcome StorageError S.Connection

    -- The key, the disk, and the bank's database if it was opened.
    pub record Prepared : Type 0 where
      pub key : Outcome MainError C.Scalar
      pub disk : F.Disk
      pub bank : Option S.Connection

    -- An error of `register` is dropped.
    abbrev pub enrolled :
        Outcome StorageError (Unit {0}) × S.Connection → Outcome MainError (Option S.Connection)
    enrolled (ok _, conn) = ok (some conn)
    enrolled (err e, conn) = ok (some conn)
    enrolled (panic, conn) = panic

    -- `if let Ok(registry) = … { let _ = registry.register(…); }`
    abbrev pub auto_enroll :
        Outcome StorageError S.Connection
        → String
        → C.Point
        → ℤ
        → Outcome MainError (Option S.Connection)
    auto_enroll (ok conn) user_id pk now = enrolled (register S C conn user_id pk now)
    auto_enroll (err e) user_id pk now = ok none
    auto_enroll panic user_id pk now = panic

    -- `let _ = fs::write(…)`, unless the program has panicked.
    abbrev pub save_key :
        F.Disk → String → C.Scalar → Outcome MainError (Option S.Connection) → Prepared
    save_key disk path sk (ok bank) = record {
      key = elim (F.write disk path (hex_string (secret_to_bytes C sk))).0 [
        | panic ↦ panic
        | _ ↦ ok sk
      ];
      disk = (F.write disk path (hex_string (secret_to_bytes C sk))).1;
      bank = bank;
    }
    save_key disk path sk (err e) = record { key = err e; disk = disk; bank = none }
    save_key disk path sk panic = record { key = panic; disk = disk; bank = none }

    unfoldable pub create_key : Session → String → Bool → Prepared
    create_key s user_id unregistered = save_key s.disk (key_file user_id) s.fresh_key (
        if unregistered
        then ok none
        else auto_enroll s.opened user_id (public_key C s.fresh_key) s.now)

    unfoldable pub prepare_key : Session → String → Bool → Prepared
    unfolding load_key create_key
    prepare_key s user_id unregistered =
        if F.is_there s.disk (key_file user_id)
        then record { key = load_key s.disk (key_file user_id); disk = s.disk; bank = none }
        else create_key s user_id unregistered
