-- ===== src/Codec/RoundTrip.antt =====
-- src/codec.rs: `encode` on one side of a stream against `decode` on the other.
use zkp_verifier.Common.{
  ◌^◌, ◌≤◌, ◌<◌, ◌≡◌, refl, ap, ◌∙◌, some, List, [], ◌∷◌, ◌++◌, Outcome, ok, err, panic, Bytes,
  arith, All, inl, inr, sym,
}
use mathlib.Core.List.{append-nil, append_assoc}
use zkp_verifier.Proof.{ZkpError}
use zkp_verifier.Protocol.{Format}
use zkp_verifier.Codec.{ZkpMessageCodec, encode, decode}
use zkp_verifier.Codec.Frames.{frame}
use zkp_verifier.Codec.Stream.{RoundTrips, encode_cases}
use zkp_verifier.Codec.Chunks.{
  Message, IsSendable, frames, items, concat, receive, receive-frames, decode-message,
}

module _ {A : Type 0} (bincode : Format A) where
  abbrev pub after_encode :
      Outcome ZkpError (Unit {0}) × Bytes
      → (Bytes → Outcome ZkpError (Unit {0}) × Bytes)
      → Outcome ZkpError (Unit {0}) × Bytes
  after_encode (ok _, dst) continue = continue dst
  after_encode (err e, dst) continue = (err e, dst)
  after_encode (panic, dst) continue = (panic, dst)

  after_encode-ok :
      (r : Outcome ZkpError (Unit {0}) × Bytes)
      (continue : Bytes → Outcome ZkpError (Unit {0}) × Bytes) {out : Bytes}
      → after_encode r continue ≡ (ok tt, out)
      → r.0 ≡ ok tt
  after_encode-ok (ok _, dst) continue h = refl
  after_encode-ok (err e, dst) continue h =
      cc (ap (λ (r : Outcome ZkpError (Unit {0}) × Bytes). r.0) h)
  after_encode-ok (panic, dst) continue h =
      cc (ap (λ (r : Outcome ZkpError (Unit {0}) × Bytes). r.0) h)

  -- Messages encoded one behind the other, up to the first that fails.
  unfoldable pub encode_all : ZkpMessageCodec → List A → Bytes → Outcome ZkpError (Unit {0}) × Bytes
  encode_all codec [] dst = (ok tt, dst)
  encode_all codec (a ∷ as') dst = after_encode (encode bincode codec a dst) (encode_all codec as')

  module _ (trip : RoundTrips bincode) (writer reader : ZkpMessageCodec)
      (small : writer.max_frame_size < 2 ^ 32)
      (wide : writer.max_frame_size ≤ reader.max_frame_size) where
    -- The messages with their payloads, if all of them are encoded.
    record Written (xs : List A) (dst out : Bytes) : Type 0 where
      messages : List (Message bincode reader)
      items_are : items bincode reader messages ≡ xs
      sendable : All (IsSendable bincode reader) messages
      out_is : out ≡ dst ++ frames bincode reader messages

    encode_all-Written :
        (xs : List A) (dst out : Bytes)
        → encode_all writer xs dst ≡ (ok tt, out)
        → Written xs dst out
    unfolding encode_all
    encode_all-Written [] dst out h = record {
      messages = [];
      items_are = refl;
      sendable = tt;
      out_is = ap (λ (r : Outcome ZkpError (Unit {0}) × Bytes). r.1) (sym h) ∙ sym (append-nil dst);
    }
    encode_all-Written (x ∷ xs) dst out h = elim (encode_cases bincode writer x dst small) [
      | inl (payload, written, fits, encoded) ↦
          let w = encode_all-Written xs (dst ++ frame payload) out (rw encoded at h) in
          record {
            messages = (x, payload) ∷ w.messages;
            items_are = ap (◌∷◌ x) w.items_are;
            sendable = ((trip x payload written, omega arith, omega arith), w.sendable);
            out_is = w.out_is ∙ append_assoc dst (frame payload) (frames bincode reader w.messages);
          }
      | inr (failed, _) ↦
          absurd (failed (after_encode-ok (encode bincode writer x dst) (encode_all writer xs) h))
    ]

    -- A message that is encoded into an empty buffer is decoded from it, whatever bytes follow, and
    -- those stay in the buffer. The format reads back what it writes, the writer's limit is below 2
    -- ^ 32, and the reader's limit is not below the writer's.
    pub decode-encode :
        (a : A) (out rest : Bytes)
        → encode bincode writer a [] ≡ (ok tt, out)
        → decode bincode reader (out ++ rest) ≡ (ok (some a), rest)
    decode-encode a out rest h = elim (encode_cases bincode writer a [] small) [
      | inl (payload, written, fits, encoded) ↦
          let out_is : out ≡ frame payload =
            ap (λ (r : Outcome ZkpError (Unit {0}) × Bytes). r.1) (sym h ∙ encoded) in
          rw out_is (
            decode-message bincode reader (a, payload) rest
              (trip a payload written, omega arith, omega arith))
      | inr (failed, _) ↦ absurd (failed (ap (λ (r : Outcome ZkpError (Unit {0}) × Bytes). r.0) h))
    ]

    -- Messages that are encoded one behind the other into an empty buffer, without an error, come
    -- out in their order, with nothing left in the buffer, however the bytes are cut into pieces on
    -- the way. The format reads back what it writes, the writer's limit is below 2 ^ 32, and the
    -- reader's limit is not below the writer's.
    pub receive-encode_all :
        (xs : List A) (out : Bytes) (chunks : List Bytes)
        → encode_all writer xs [] ≡ (ok tt, out)
        → concat chunks ≡ out
        → receive bincode reader [] chunks ≡ some (xs, ok [])
    receive-encode_all xs out chunks h same =
        let w = encode_all-Written xs [] out h in
        receive-frames bincode reader w.messages chunks w.sendable (same ∙ w.out_is)
        ∙ ap (λ ys. some (ys, ok [])) w.items_are
