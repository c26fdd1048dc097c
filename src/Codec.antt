-- ===== src/Codec.antt =====
-- src/codec.rs: `ZkpMessageCodec`, a 4-byte big-endian length before each payload. The buffer is
-- the list of its bytes, so that `reserve`, which changes the capacity alone, has no counterpart.
pub mod Frames
pub mod Stream
pub mod Chunks
pub mod RoundTrip
use zkp_verifier.Common.{
  ℕ, ◌+◌, ◌*◌, ◌%◌, ◌^◌, String, ◌<>◌, Option, none, some, [], ◌∷◌, ◌++◌, Outcome, ok, err, panic,
  Bytes, length, take, drop, ltb, map_err, if◌then◌else◌,
}
use zkp_verifier.Common.Show.{show_ℕ}
use zkp_verifier.Common.Word.{u32_to_be_bytes, u32_from_be_bytes}
use zkp_verifier.Proof.{ZkpError, serialization_error}
use zkp_verifier.Protocol.{Format}

abbrev pub max_frame_size : ℕ
max_frame_size = 64 * 1024

pub record ZkpMessageCodec : Type 0 where
  pub max_frame_size : ℕ

unfoldable pub new : ZkpMessageCodec
new = record { max_frame_size = max_frame_size }

unfoldable pub default : ZkpMessageCodec
unfolding new
default = new

unfoldable pub with_max_frame_size : ℕ → ZkpMessageCodec
with_max_frame_size max_frame_size = record { max_frame_size = max_frame_size }

-- What is written once the payload is known.
unfoldable pub put_frame :
    ZkpMessageCodec → Bytes → Outcome ZkpError Bytes → Outcome ZkpError (Unit {0}) × Bytes
put_frame codec dst (err e) = (err e, dst)
put_frame codec dst panic = (panic, dst)
put_frame codec dst (ok payload) =
    if ltb codec.max_frame_size (length payload)
    then (
      err (
          serialization_error (
            "Message payload exceeds maximum frame size: "
            <> show_ℕ (length payload)
            <> " > "
            <> show_ℕ codec.max_frame_size)),
      dst,
    )
    else (ok tt, dst ++ (u32_to_be_bytes (length payload % 2 ^ 32) ++ payload))

module _ {Out : Type 0} (bincode : Format Out) where
  unfoldable pub encode : ZkpMessageCodec → Out → Bytes → Outcome ZkpError (Unit {0}) × Bytes
  unfolding put_frame
  encode codec item dst =
      put_frame codec dst
        (map_err (λ e. serialization_error ("Encoding failed: " <> e)) (bincode.serialize item))

module _ {In : Type 0} (bincode : Format In) where
  abbrev pub found : Outcome ZkpError In → Outcome ZkpError (Option In)
  found (ok item) = ok (some item)
  found (err e) = err e
  found panic = panic

  unfoldable pub decode : ZkpMessageCodec → Bytes → Outcome ZkpError (Option In) × Bytes
  decode codec src =
      let frame_len = u32_from_be_bytes (take 4 src) in
      if ltb (length src) 4
      then (ok none, src)
      else (if ltb codec.max_frame_size frame_len
          then (
            err (
                serialization_error (
                  "Frame length exceeds allowed limit: "
                  <> show_ℕ frame_len
                  <> " > "
                  <> show_ℕ codec.max_frame_size)),
            src,
          )
          else (if ltb (length src) (4 + frame_len) then (ok none, src) else (
            found (
                map_err (λ e. serialization_error ("Decoding failed: " <> e))
                  (bincode.deserialize (take frame_len (drop 4 src)))),
            drop frame_len (drop 4 src),
          )))
