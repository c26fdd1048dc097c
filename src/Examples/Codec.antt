-- ===== src/Examples/Codec.antt =====
-- A format of one byte for each message, and streams of its frames.
use zkp_verifier.Common.{
  ◌≡◌, refl, ◌≢◌, ◌⊎◌, ◌≤◌, ℕ, String, some, none, List, [], ◌∷◌, ◌++◌, Outcome, ok, err, Bytes,
  length, arith, ap, sym, ok_inj,
}
use zkp_verifier.Common.Word.{u32_to_be_bytes}
use zkp_verifier.Protocol.{Format}
use zkp_verifier.Codec.{ZkpMessageCodec, new, encode}
use zkp_verifier.Codec.Frames.{frame}
use zkp_verifier.Codec.Stream.{RoundTrips, encode_cases, drain, drain-ends}
use zkp_verifier.Codec.Chunks.{receive, receive-frames}
use zkp_verifier.Codec.RoundTrip.{receive-encode_all, encode_all}

abbrev write_byte : ℕ → Outcome String Bytes
write_byte n = ok (n ∷ [])

abbrev read_byte : Bytes → Outcome String ℕ
read_byte [] = err "unexpected end of file"
read_byte (n ∷ _) = ok n

abbrev byte_format : Format ℕ
byte_format = record { serialize = write_byte; deserialize = read_byte }

abbrev small_codec : ZkpMessageCodec
small_codec = record { max_frame_size = 16 }

byte_format-RoundTrips : RoundTrips byte_format
byte_format-RoundTrips a payload h = ap read_byte (sym (ok_inj h))

abbrev stream : Bytes
stream = 0 ∷ 0 ∷ 0 ∷ 1 ∷ 7 ∷ 0 ∷ 0 ∷ 0 ∷ 1 ∷ 9 ∷ []

abbrev pieces : List Bytes
pieces = (0 ∷ 0 ∷ []) ∷ (0 ∷ 1 ∷ 7 ∷ 0 ∷ []) ∷ [] ∷ (0 ∷ 0 ∷ 1 ∷ 9 ∷ []) ∷ []

encode_cases_example :
    ((payload : Bytes) × (byte_format.serialize 7 ≡ ok payload)
      × (length payload ≤ 16)
      × (encode byte_format small_codec 7 (1 ∷ []) ≡ (ok tt, (1 ∷ []) ++ frame payload)))
    ⊎ (((encode byte_format small_codec 7 (1 ∷ [])).0 ≢ ok tt)
        × ((encode byte_format small_codec 7 (1 ∷ [])).1 ≡ 1 ∷ []))
encode_cases_example = encode_cases byte_format small_codec 7 (1 ∷ []) (omega arith)

drain-ends_example : drain byte_format small_codec 11 stream ≢ none
drain-ends_example = drain-ends byte_format small_codec 11 stream (omega arith)

receive-frames_example : receive byte_format small_codec [] pieces ≡ some (7 ∷ 9 ∷ [], ok [])
unfolding frame u32_to_be_bytes
receive-frames_example =
    receive-frames byte_format small_codec ((7, 7 ∷ []) ∷ (9, 9 ∷ []) ∷ []) pieces
      ((refl, omega arith, omega arith), ((refl, omega arith, omega arith), tt)) refl

encoded_seven : encode byte_format small_codec 7 [] ≡ (ok tt, 0 ∷ 0 ∷ 0 ∷ 1 ∷ 7 ∷ [])
unfolding encode u32_to_be_bytes
encoded_seven = refl

encoded_stream : encode_all byte_format small_codec (7 ∷ 9 ∷ []) [] ≡ (ok tt, stream)
unfolding encode encode_all u32_to_be_bytes
encoded_stream = refl

receive-encode_all_example : receive byte_format new [] pieces ≡ some (7 ∷ 9 ∷ [], ok [])
receive-encode_all_example =
    receive-encode_all byte_format byte_format-RoundTrips small_codec new (omega arith)
      (unfold new in omega arith) (7 ∷ 9 ∷ []) stream pieces encoded_stream refl
