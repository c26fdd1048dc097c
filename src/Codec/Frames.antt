-- ===== src/Codec/Frames.antt =====
-- src/codec.rs: what `encode` appends, and what `decode` makes of a whole frame and of a part of one.
use zkp_verifier.Common.{
  ℕ, ◌+◌, ◌^◌, ◌≤◌, ◌<◌, ◌≡◌, refl, suc, ap, ap₂, ◌∙◌, ◌<>◌, Option, none, [], ◌∷◌, ◌++◌, Outcome,
  ok, Bytes, length, take, drop, map_err, arith, length-append, take-append, drop-append, le→ltb,
  lt→ltb,
}
use zkp_verifier.Common.Word.{u32_to_be_bytes, u32_from_be_bytes, u32_from_be_bytes-to_be_bytes}
use zkp_verifier.Proof.{ZkpError, serialization_error}
use zkp_verifier.Protocol.{Format}
use zkp_verifier.Codec.{ZkpMessageCodec, found, decode}

-- The bytes of a frame.
unfoldable pub frame : Bytes → Bytes
frame payload = u32_to_be_bytes (length payload) ++ payload

pub length-frame : (payload : Bytes) → length (frame payload) ≡ 4 + length payload
unfolding frame u32_to_be_bytes
length-frame payload = omega arith

module _ {In : Type 0} (bincode : Format In) (codec : ZkpMessageCodec) where
  -- What `decode` answers for a payload.
  abbrev pub read_payload : Bytes → Outcome ZkpError (Option In)
  read_payload payload =
      found bincode (
        map_err (λ e. serialization_error ("Decoding failed: " <> e)) (bincode.deserialize payload))

  module _ (a b c d n : ℕ) (tail : Bytes) (header : u32_from_be_bytes (a ∷ b ∷ c ∷ d ∷ []) ≡ n)
      (fits : n ≤ codec.max_frame_size) where
    -- A header, and at least the payload that it announces.
    decode-ready :
        n ≤ length tail
        → decode bincode codec (a ∷ b ∷ c ∷ d ∷ tail) ≡ (read_payload (take n tail), drop n tail)
    unfolding decode
    decode-ready all = rw (
      header,
      le→ltb (suc (suc (suc (suc (length tail))))) 4 (omega arith),
      le→ltb codec.max_frame_size n fits,
      le→ltb (suc (suc (suc (suc (length tail))))) (4 + n) (omega arith),
    )

    -- A header, and less than the payload that it announces.
    decode-waits :
        length tail < n
        → decode bincode codec (a ∷ b ∷ c ∷ d ∷ tail) ≡ (ok none, a ∷ b ∷ c ∷ d ∷ tail)
    unfolding decode
    decode-waits some_missing = rw (
      header,
      le→ltb (suc (suc (suc (suc (length tail))))) 4 (omega arith),
      le→ltb codec.max_frame_size n fits,
      lt→ltb (suc (suc (suc (suc (length tail))))) (4 + n) (omega arith),
    )

  -- On a whole frame, whose payload is within the limit and shorter than 2 ^ 32, `decode` takes the
  -- frame off the buffer and answers what the format reads from the payload, an error included; the
  -- bytes behind the frame stay.
  pub decode-frame :
      (payload rest : Bytes)
      → length payload ≤ codec.max_frame_size
      → length payload < 2 ^ 32
      → decode bincode codec (frame payload ++ rest) ≡ (read_payload payload, rest)
  unfolding frame u32_to_be_bytes
  decode-frame payload rest fits small =
      decode-ready _ _ _ _ (length payload) (payload ++ rest)
        (u32_from_be_bytes-to_be_bytes (length payload) small) fits
        (omega (arith, length-append payload rest))
      ∙ ap₂ (λ p r. (read_payload p, r)) (take-append payload rest) (drop-append payload rest)

  -- On a proper prefix of a frame, whose payload is within the limit and shorter than 2 ^ 32,
  -- `decode` asks for more bytes and leaves the buffer as it was.
  pub decode-prefix :
      (payload front back : Bytes) (x : ℕ)
      → length payload ≤ codec.max_frame_size
      → length payload < 2 ^ 32
      → front ++ (x ∷ back) ≡ frame payload
      → decode bincode codec front ≡ (ok none, front)
  unfolding decode frame u32_to_be_bytes
  decode-prefix payload [] back x fits small e = refl
  decode-prefix payload (a ∷ []) back x fits small e = refl
  decode-prefix payload (a ∷ b ∷ []) back x fits small e = refl
  decode-prefix payload (a ∷ b ∷ c ∷ []) back x fits small e = refl
  decode-prefix payload (a ∷ b ∷ c ∷ d ∷ front) back x fits small e =
      let header : take 4 (a ∷ b ∷ c ∷ d ∷ (front ++ (x ∷ back)))
          ≡ u32_to_be_bytes (length payload) =
        ap (take 4) e in
      let tail : front ++ (x ∷ back) ≡ payload = ap (drop 4) e in
      decode-waits a b c d (length payload) front
        (ap u32_from_be_bytes header ∙ u32_from_be_bytes-to_be_bytes (length payload) small) fits
        (omega (arith, length-append front (x ∷ back), ap length tail))
