-- ===== src/Codec/Chunks.antt =====
-- src/codec.rs over a byte stream that arrives in pieces: what is read from frames that are cut
-- anywhere.
use zkp_verifier.Common.{
  ℕ, zero, suc, ◌^◌, ◌≤◌, ◌<◌, ◌≡◌, refl, sym, ap, ◌∙◌, none, some, List, [], ◌∷◌, ◌++◌, map, ok,
  err, panic, Bytes, length, arith, length-append, All, append_split_le, append_split_lt,
}
use native.Mathlib.Decide.{dec_lt}
use mathlib.Core.List.{append_assoc, map-append}
use zkp_verifier.Protocol.{Format}
use zkp_verifier.Codec.{ZkpMessageCodec, decode}
use zkp_verifier.Codec.Frames.{frame, length-frame, decode-frame, decode-prefix}
use zkp_verifier.Codec.Stream.{Drained, drain}

abbrev pub concat : List Bytes → Bytes
concat [] = []
concat (c ∷ cs) = c ++ concat cs

module _ {In : Type 0} (bincode : Format In) (codec : ZkpMessageCodec) where
  -- A message with the payload that it is read from.
  abbrev pub Message : Type 0
  Message = In × Bytes

  abbrev pub IsSendable : Message → Type 0
  IsSendable m =
      (bincode.deserialize m.1 ≡ ok m.0)
      × (length m.1 ≤ codec.max_frame_size)
      × (length m.1 < 2 ^ 32)

  abbrev pub frames : List Message → Bytes
  frames [] = []
  frames (m ∷ ms) = frame m.1 ++ frames ms

  abbrev pub items : List Message → List In
  items = map (λ m. m.0)

  abbrev pub append_items : List In → Drained bincode codec → Drained bincode codec
  append_items xs none = none
  append_items xs (some (ys, r)) = some (xs ++ ys, r)

  abbrev pub after_drain :
      Drained bincode codec → (Bytes → Drained bincode codec) → Drained bincode codec
  after_drain none continue = none
  after_drain (some (xs, ok rest)) continue = append_items xs (continue rest)
  after_drain (some (xs, err e)) continue = some (xs, err e)
  after_drain (some (xs, panic)) continue = some (xs, panic)

  -- A reader that gets the stream in pieces: each is put behind what waits in the buffer, and what
  -- is complete is taken out.
  unfoldable pub receive : Bytes → List Bytes → Drained bincode codec
  receive buf [] = some ([], ok buf)
  receive buf (c ∷ cs) =
      after_drain (drain bincode codec (suc (length (buf ++ c))) (buf ++ c))
        (λ rest. receive rest cs)

  -- What is left waits for the rest of the first frame that is not read yet.
  abbrev Waiting : Bytes → List Message → Type 0
  Waiting rest [] = rest ≡ []
  Waiting rest (m ∷ _) = length rest < length (frame m.1)

  record Part (fuel : ℕ) (buf tail : Bytes) (ms : List Message) : Type 0 where
    done : List Message
    more : List Message
    rest : Bytes
    split : ms ≡ done ++ more
    drained : drain bincode codec fuel buf ≡ some (items done, ok rest)
    remains : rest ++ tail ≡ frames more
    sendable : All IsSendable more
    waits : Waiting rest more

  pub decode-message :
      (m : Message) (rest : Bytes)
      → IsSendable m
      → decode bincode codec (frame m.1 ++ rest) ≡ (ok (some m.0), rest)
  decode-message m rest (read, fits, small) =
      decode-frame bincode codec m.1 rest fits small ∙ rw read

  drain_waits :
      (m : Message) (ms : List Message) (fuel : ℕ) (buf tail : Bytes)
      → All IsSendable (m ∷ ms)
      → length buf < length (frame m.1)
      → buf ++ tail ≡ frames (m ∷ ms)
      → Part (suc fuel) buf tail (m ∷ ms)
  unfolding drain
  drain_waits m ms fuel buf tail s short e =
      let (x, back, part) = append_split_lt buf tail (frame m.1) (frames ms) short e in
      record {
        done = [];
        more = m ∷ ms;
        rest = buf;
        split = refl;
        drained = rw (decode-prefix bincode codec m.1 buf back x s.0.1 s.0.2 part);
        remains = e;
        sendable = s;
        waits = short;
      }

  drain_message :
      (m : Message) (ms : List Message) (fuel : ℕ) (buf zs tail : Bytes)
      → IsSendable m
      → buf ≡ frame m.1 ++ zs
      → Part fuel zs tail ms
      → Part (suc fuel) buf tail (m ∷ ms)
  unfolding drain
  drain_message m ms fuel buf zs tail sm e part = record {
    done = m ∷ part.done;
    more = part.more;
    rest = part.rest;
    split = ap (◌∷◌ m) part.split;
    drained = rw (e, decode-message m zs sm, part.drained);
    remains = part.remains;
    sendable = part.sendable;
    waits = part.waits;
  }

  drain-Part :
      (ms : List Message) (fuel : ℕ) (buf tail : Bytes)
      → All IsSendable ms
      → length buf < fuel
      → buf ++ tail ≡ frames ms
      → Part fuel buf tail ms
  drain-Part ms zero buf tail s h e = absurd (omega arith)
  drain-Part [] (suc fuel) [] tail s h e = record {
    done = [];
    more = [];
    rest = [];
    split = refl;
    drained = unfold drain decode in refl;
    remains = e;
    sendable = tt;
    waits = refl;
  }
  drain-Part [] (suc fuel) (b ∷ buf) tail s h e = cc
  drain-Part (m ∷ ms) (suc fuel) buf tail s h e = elim (dec_lt (length buf) (length (frame m.1))) [
    | yes short ↦ drain_waits m ms fuel buf tail s short e
    | no long ↦
        let (zs, front, back) = append_split_le buf tail (frame m.1) (frames ms) (omega arith) e in
        drain_message m ms fuel buf zs tail s.0 front (
          drain-Part ms fuel zs tail s.1
            (omega (arith, ap length front, length-append (frame m.1) zs, length-frame m.1)) back)
  ]

  receive_from :
      (chunks : List Bytes) (ms : List Message) (buf : Bytes)
      → All IsSendable ms
      → Waiting buf ms
      → buf ++ concat chunks ≡ frames ms
      → receive buf chunks ≡ some (items ms, ok [])
  unfolding receive
  receive_from [] [] buf s w e = rw w
  receive_from [] (m ∷ ms) buf s w e =
      absurd
        (omega (arith, ap length e, length-append buf [], length-append (frame m.1) (frames ms)))
  receive_from (c ∷ cs) ms buf s w e =
      let p =
        drain-Part ms (suc (length (buf ++ c))) (buf ++ c) (concat cs) s (omega arith)
          (append_assoc buf c (concat cs) ∙ e) in
      rw (p.drained, receive_from cs p.more p.rest p.sendable p.waits p.remains)
        (ap (λ xs. some (xs, ok [])) (sym (ap items p.split ∙ map-append _ p.done p.more)))

  -- The frames of any messages, cut into any pieces, give the messages back in their order, and
  -- leave nothing in the buffer.
  pub receive-frames :
      (ms : List Message) (chunks : List Bytes)
      → All IsSendable ms
      → concat chunks ≡ frames ms
      → receive [] chunks ≡ some (items ms, ok [])
  receive-frames ms chunks s e = receive_from chunks ms [] s (start ms) e
    where
      start : (ms : List Message) → Waiting [] ms
      start [] = refl
      start (m ∷ ms) = omega (arith, length-frame m.1)
