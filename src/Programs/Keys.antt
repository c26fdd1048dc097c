-- ===== src/Programs/Keys.antt =====
-- src/bin/user_client.rs, and alike src/bin/kafka_prover.rs and src/bin/enroll_user.rs: the key that is
-- saved is the key that is loaded.
use zkp_verifier.Common.{
  ◌≡◌, refl, ap, sym, ◌∙◌, String, Bool, true, false, Option, none, Outcome, ok, err, panic, Bytes,
  map_err, ok_inj,
}
use zkp_verifier.Curve.{Curve, IsGroup, IsEncoding}
use zkp_verifier.Database.{Rusqlite}
use zkp_verifier.FileSystem.{FileSystem, IsDisk}
use zkp_verifier.KeyFile.{hex_string}
use zkp_verifier.KeyFile.Trim.{trim-hex_string}
use zkp_verifier.KeyFile.RoundTrip.{hex_decode-hex_string}
use zkp_verifier.Engine.{secret_to_bytes}
use zkp_verifier.Engine.Complete.{secret_from_bytes-to_bytes}
use zkp_verifier.Programs.{
  MainError, key_file, load_key, Session, save_key, create_key, prepare_key,
}

module _ (F : FileSystem) (C : Curve) (g : IsGroup C) (enc : IsEncoding C g) where
  -- A file whose text is the key's is loaded as the key.
  pub load_key-hex_string :
      (disk : F.Disk) (path : String) (sk : C.Scalar)
      → F.read_to_string disk path ≡ ok (hex_string (secret_to_bytes C sk))
      → load_key F C disk path ≡ ok sk
  unfolding load_key secret_to_bytes
  load_key-hex_string disk path sk read =
      let bytes = enc.scalar_to_bytes-IsByte sk in
      rw
        (
          read,
          trim-hex_string (C.scalar_to_bytes sk) bytes,
          hex_decode-hex_string (C.scalar_to_bytes sk) bytes,
        )
        (ap (map_err _) (secret_from_bytes-to_bytes C g enc sk))

  module _ (laws : IsDisk F) where
    pub load_key-write :
        (disk : F.Disk) (path : String) (sk : C.Scalar) (text : Bytes)
        → (F.write disk path (hex_string (secret_to_bytes C sk))).0 ≡ ok tt
        → F.read_to_string (F.write disk path (hex_string (secret_to_bytes C sk))).1 path ≡ ok text
        → load_key F C (F.write disk path (hex_string (secret_to_bytes C sk))).1 path ≡ ok sk
    load_key-write disk path sk text written read =
        load_key-hex_string _ path sk (read ∙ ap ok (laws.read-write disk path _ text written read))

    module _ (S : Rusqlite) where
      save_key-disk :
          (disk : F.Disk) (path : String) (sk k : C.Scalar)
          (bank : Outcome MainError (Option S.Connection))
          → (save_key F C S disk path sk bank).key ≡ ok k
          → (F.write disk path (hex_string (secret_to_bytes C sk))).0 ≡ ok tt
          → (k ≡ sk)
            × ((save_key F C S disk path sk bank).disk
                ≡ (F.write disk path (hex_string (secret_to_bytes C sk))).1)
      save_key-disk disk path sk k (ok bank) h written = (sym (ok_inj (rw written at h)), refl)
      save_key-disk disk path sk k (err e) h written = cc
      save_key-disk disk path sk k panic h written = cc

      -- To load a key changes nothing.
      pub prepare_key-there :
          (s : Session F C S) (u : String) (unregistered : Bool) (sk : C.Scalar)
          → F.is_there s.disk (key_file u) ≡ true
          → load_key F C s.disk (key_file u) ≡ ok sk
          → prepare_key F C S s u unregistered ≡ record { key = ok sk; disk = s.disk; bank = none }
      unfolding prepare_key
      prepare_key-there s u unregistered sk there loaded = rw (there, loaded) refl

      -- If there was no key file for a user, and the key management gave a key and wrote the file,
      -- then the key management in a later run gives the same key, and changes neither the disk nor
      -- the database. The later run finds the disk as the first one left it and reads the file
      -- without an error; the laws of the disk hold.
      pub prepare_key_again :
          (s : Session F C S) (u : String) (unregistered : Bool) (sk : C.Scalar)
          → F.is_there s.disk (key_file u) ≡ false
          → (prepare_key F C S s u unregistered).key ≡ ok sk
          → (F.write s.disk (key_file u) (hex_string (secret_to_bytes C s.fresh_key))).0 ≡ ok tt
          → (later : Session F C S) (unregistered' : Bool) (text : Bytes)
          → later.disk ≡ (prepare_key F C S s u unregistered).disk
          → F.read_to_string later.disk (key_file u) ≡ ok text
          → prepare_key F C S later u unregistered'
            ≡ record { key = ok sk; disk = later.disk; bank = none }
      unfolding prepare_key create_key
      prepare_key_again s u unregistered sk absent made written later unregistered' text same read =
          let path = key_file u in
          let new = s.fresh_key in
          let saved = save_key-disk s.disk path new sk _ (rw absent at made) written in
          let disk_is : later.disk ≡ (F.write s.disk path (hex_string (secret_to_bytes C new))).1 =
            same ∙ rw absent saved.1 in
          prepare_key-there later u unregistered' sk
            (ap (λ d. F.is_there d path) disk_is ∙ laws.is_there-write s.disk path _ written)
            (ap (λ d. load_key F C d path) disk_is
              ∙ load_key-write s.disk path new text written
                  (ap (λ d. F.read_to_string d path) (sym disk_is) ∙ read)
              ∙ ap ok (sym saved.0))
