-- ===== src/Codec/Stream.antt =====
-- src/codec.rs over a byte stream: a reader appends what arrives to its buffer and calls `decode`
-- until that answers that it needs more bytes.
use zkp_verifier.Common.{
  ℕ, zero, suc, ◌+◌, ◌%◌, ◌^◌, ◌≤◌, ◌<◌, ◌≡◌, refl, ap, ◌≢◌, String, Option, none, some, List, [],
  ◌∷◌, ◌++◌, Outcome, ok, err, panic, Bytes, length, take, drop, ltb, arith, length-drop, inl, inr,
  ◌⊎◌, Bool-cases,
}
use zkp_verifier.Common.Word.{u32_from_be_bytes}
use zkp_verifier.Proof.{ZkpError}
use zkp_verifier.Protocol.{Format}
use zkp_verifier.Codec.{ZkpMessageCodec, encode, decode}
use zkp_verifier.Codec.Frames.{frame}

-- What is written can be read back.
abbrev pub RoundTrips : {A : Type 0} → Format A → Type 0
RoundTrips {A} format =
    (a : A) (payload : Bytes) → format.serialize a ≡ ok payload → format.deserialize payload ≡ ok a

module _ {Out : Type 0} (bincode : Format Out) (codec : ZkpMessageCodec) where
  -- `encode`, with a limit below 2 ^ 32, succeeds and appends one frame whose payload is the
  -- serialized message and within the limit, or it does not succeed and leaves the buffer as it
  -- was.
  pub encode_cases :
      (item : Out) (dst : Bytes)
      → codec.max_frame_size < 2 ^ 32
      → ((payload : Bytes) × (bincode.serialize item ≡ ok payload)
          × (length payload ≤ codec.max_frame_size)
          × (encode bincode codec item dst ≡ (ok tt, dst ++ frame payload)))
        ⊎ (((encode bincode codec item dst).0 ≢ ok tt) × ((encode bincode codec item dst).1 ≡ dst))
  unfolding encode frame
  encode_cases item dst small = cases (bincode.serialize item) refl
    where
      short :
          (payload : Bytes)
          → length payload ≤ codec.max_frame_size
          → length payload % 2 ^ 32 ≡ length payload
      short payload h = omega arith

      cases :
          (r : Outcome String Bytes)
          → bincode.serialize item ≡ r
          → ((payload : Bytes) × (bincode.serialize item ≡ ok payload)
              × (length payload ≤ codec.max_frame_size)
              × (encode bincode codec item dst ≡ (ok tt, dst ++ frame payload)))
            ⊎ (((encode bincode codec item dst).0 ≢ ok tt)
                × ((encode bincode codec item dst).1 ≡ dst))
      cases (err e) h = inr (rw h (λ p. cc), rw h)
      cases panic h = inr (rw h (λ p. cc), rw h)
      cases (ok payload) h = elim (Bool-cases (ltb codec.max_frame_size (length payload))) [
        | inl over ↦ inr (rw (h, over) (λ p. cc), rw (h, over))
        | inr fits ↦ inl (payload, h, ground arith, rw (h, fits, short payload (ground arith)))
      ]

module _ {In : Type 0} (bincode : Format In) (codec : ZkpMessageCodec) where
  -- A message takes its header and its payload off the buffer.
  decode_takes :
      (src rest : Bytes) (item : In)
      → decode bincode codec src ≡ (ok (some item), rest)
      → length rest + 4 ≤ length src
  unfolding decode
  decode_takes src rest item h = ground (
    arith,
    length-drop 4 src,
    length-drop (u32_from_be_bytes (take 4 src)) (drop 4 src),
    ap (λ (r : Outcome ZkpError (Option In) × Bytes). length r.1) h,
  )

  abbrev pub Drained : Type 0
  Drained = Option (List In × Outcome ZkpError Bytes)

  abbrev pub prepend : In → Drained → Drained
  prepend x none = none
  prepend x (some (xs, r)) = some (x ∷ xs, r)

  abbrev pub after_decode : Outcome ZkpError (Option In) × Bytes → (Bytes → Drained) → Drained
  after_decode (ok (some x), rest) continue = prepend x (continue rest)
  after_decode (ok none, rest) continue = some ([], ok rest)
  after_decode (err e, rest) continue = some ([], err e)
  after_decode (panic, rest) continue = some ([], panic)

  prepend-ne-none : (x : In) (d : Drained) → d ≢ none → prepend x d ≢ none
  prepend-ne-none x none h = h
  prepend-ne-none x (some d) h = λ p. cc

  -- The messages that successive calls of `decode` give, and then the bytes that wait for more, or
  -- the error. `none` is a loop that is cut short.
  unfoldable pub drain : ℕ → Bytes → Drained
  drain zero src = none
  drain (suc fuel) src = after_decode (decode bincode codec src) (drain fuel)

  -- Calling `decode` until it asks for more bytes or fails ends, on any bytes, within as many calls
  -- as there are bytes and one more.
  pub drain-ends : (fuel : ℕ) (src : Bytes) → length src < fuel → drain fuel src ≢ none
  unfolding drain
  drain-ends zero src h = absurd (omega arith)
  drain-ends (suc fuel) src h =
      cases (decode bincode codec src) refl (λ rest shorter. drain-ends fuel rest shorter)
    where
      cases :
          (r : Outcome ZkpError (Option In) × Bytes)
          → decode bincode codec src ≡ r
          → ((rest : Bytes) → length rest < fuel → drain fuel rest ≢ none)
          → after_decode r (drain fuel) ≢ none
      cases (ok (some x), rest) e ih =
          prepend-ne-none x (drain fuel rest) (ih rest (omega (arith, decode_takes src rest x e)))
      cases (ok none, rest) e ih = λ p. cc
      cases (err x, rest) e ih = λ p. cc
      cases (panic, rest) e ih = λ p. cc
