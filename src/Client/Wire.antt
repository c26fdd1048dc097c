-- ===== src/Client/Wire.antt =====
-- src/tcp/client.rs, src/codec.rs and src/tcp/server.rs together: a request and its response as bytes
-- on a connection, which are cut into pieces on the way.
use zkp_verifier.Common.{
  ◌≡◌, refl, ap, ◌∙◌, ◌^◌, Option, none, some, List, [], ◌∷◌, map, Outcome, ok, err, panic, Bytes,
  arith, ◌++◌, ◌<◌,
}
use zkp_verifier.Common.Int.{ℤ}
use zkp_verifier.Curve.{Curve}
use zkp_verifier.Database.{Rusqlite}
use zkp_verifier.Proof.{ZkpError, serialization_error}
use zkp_verifier.Protocol.{AuthRequest, AuthResponse, Format}
use zkp_verifier.Codec.{new, encode}
use zkp_verifier.Codec.Stream.{RoundTrips}
use zkp_verifier.Codec.Chunks.{concat, receive}
use zkp_verifier.Codec.RoundTrip.{encode_all, receive-encode_all}
use zkp_verifier.Replay.{ReplayProtector}
use zkp_verifier.Replay.Trace.{run}
use zkp_verifier.Server.{Arrival, Served, handle_request, handle_connection}
use zkp_verifier.Client.{Connection, read_response, send_raw_request}

-- The client's view of what becomes of its request: no answer means that the connection is closed.
abbrev pub seen : Outcome ZkpError AuthResponse → Outcome ZkpError AuthResponse
seen (ok response) = ok response
seen _ = err (serialization_error "Connection closed by server before response was received")

-- What `framed.next` gives first.
abbrev pub first_message :
    {A : Type 0} → Option (List A × Outcome ZkpError Bytes) → Option (Outcome ZkpError A)
first_message (some (a ∷ _, _)) = some (ok a)
first_message (some ([], err e)) = some (err e)
first_message _ = none

module _ (S : Rusqlite) (C : Curve) (conn : S.Connection) (now : ℤ) where
  abbrev pub arrival : Outcome ZkpError AuthRequest → Arrival C S
  arrival message = record { now = now; conn = conn; others = []; message = message; sent = ok tt }

  abbrev pub failure : Outcome ZkpError Bytes → List (Arrival C S)
  failure (ok rest) = []
  failure (err e) = arrival (err e) ∷ []
  failure panic = arrival panic ∷ []

  -- The messages of a connection that stays open, which meet this registry and clock.
  abbrev pub arrivals : Option (List AuthRequest × Outcome ZkpError Bytes) → List (Arrival C S)
  arrivals none = []
  arrivals (some (requests, r)) = map (λ request. arrival (ok request)) requests ++ failure r

module _ (S : Rusqlite) (C : Curve) (conn : S.Connection) (p : ReplayProtector) (now : ℤ)
    (request_format : Format AuthRequest) (response_format : Format AuthResponse)
    (cut : Bytes → List Bytes) where
  -- What the server does with the bytes that a client has sent, and the bytes that it sends.
  pub served : Bytes → Served C S
  served bytes =
      handle_connection C S p (arrivals S C conn now (receive request_format new [] (cut bytes)))

  pub replies : Bytes → Bytes
  replies bytes = (encode_all response_format new (served bytes).responses []).1

  -- The connection that a client has, over bytes.
  abbrev pub over_wire : Connection
  over_wire = record {
    send = λ request. (encode request_format new request []).0;
    next = λ request.
        first_message
          (receive response_format new [] (cut (replies (encode request_format new request []).1)));
  }

abbrev responses_to : Outcome ZkpError AuthResponse → List AuthResponse
responses_to (ok response) = response ∷ []
responses_to _ = []

new_fits : new.max_frame_size < 2 ^ 32
unfolding new
new_fits = omega arith

-- One message is written as a sequence of one.
encode_one :
    {A : Type 0} (format : Format A) (a : A)
    → (encode format new a []).0 ≡ ok tt
    → encode_all format new (a ∷ []) [] ≡ (ok tt, (encode format new a []).1)
unfolding encode_all
encode_one format a h = rw h refl

module _ (S : Rusqlite) (C : Curve) (conn : S.Connection) (p : ReplayProtector) (now : ℤ)
    (request_format : Format AuthRequest) (response_format : Format AuthResponse)
    (cut : Bytes → List Bytes) (reads_request : RoundTrips request_format)
    (reads_response : RoundTrips response_format) where
  abbrev answer : AuthRequest → Outcome ZkpError AuthResponse
  answer request = (handle_request C S conn p now request).0

  -- The bytes that answer the bytes of a request.
  abbrev reply_to : AuthRequest → Bytes
  reply_to request =
      replies S C conn p now request_format response_format cut
        (encode request_format new request []).1

  module _ (whole : (b : Bytes) → concat (cut b) ≡ b) (request : AuthRequest)
      (sent : (encode request_format new request []).0 ≡ ok tt) where
    received :
        receive request_format new [] (cut (encode request_format new request []).1)
        ≡ some (request ∷ [], ok [])
    received =
        receive-encode_all request_format reads_request new new new_fits (omega arith)
          (request ∷ []) (encode request_format new request []).1 _
          (encode_one request_format request sent) (whole _)

    served_responses :
        (r : Outcome ZkpError AuthResponse × ReplayProtector)
        → handle_request C S conn p now request ≡ r
        → (handle_connection C S p (arrival S C conn now (ok request) ∷ [])).responses
          ≡ responses_to r.0
    unfolding handle_connection run
    served_responses (ok response, q) e = rw e refl
    served_responses (err x, q) e = rw e refl
    served_responses (panic, q) e = rw e refl

    replied :
        reply_to request ≡ (encode_all response_format new (responses_to (answer request)) []).1
    unfolding replies served
    replied =
        ap
          (λ m.
            (encode_all response_format new
              (handle_connection C S p (arrivals S C conn now m)).responses []).1)
          received
        ∙ ap (λ rs. (encode_all response_format new rs []).1) (served_responses _ refl)

    -- What the client reads of the responses.
    read_back :
        (rs : List AuthResponse)
        → (encode_all response_format new rs []).0 ≡ ok tt
        → reply_to request ≡ (encode_all response_format new rs []).1
        → receive response_format new [] (cut (reply_to request)) ≡ some (rs, ok [])
    read_back rs written e =
        receive-encode_all response_format reads_response new new new_fits (omega arith) rs
          (encode_all response_format new rs []).1 _ (rw (← written) refl) (whole _ ∙ e)

    by_answer :
        (w : Outcome ZkpError AuthResponse)
        → answer request ≡ w
        → ((response : AuthResponse)
            → answer request ≡ ok response
            → (encode response_format new response []).0 ≡ ok tt)
        → read_response (first_message (receive response_format new [] (cut (reply_to request))))
          ≡ seen w
    by_answer (ok response) e fits =
        rw
          (read_back (response ∷ [])
            (ap (λ (r : Outcome ZkpError (Unit {0}) × Bytes). r.0)
              (encode_one response_format response (fits response e)))
            (rw e at replied))
          refl
    by_answer (err x) e fits = rw (read_back [] (unfold encode_all in refl) (rw e at replied)) refl
    by_answer panic e fits = rw (read_back [] (unfold encode_all in refl) (rw e at replied)) refl

    -- A client that sends a request as bytes, which arrive at the server cut into any pieces and
    -- are read, handled and answered there by `handle_connection`, whose bytes come back in pieces
    -- too, gets what `handle_request` answers to the request itself, or, if that is no response,
    -- the error for a closed connection. The request is encoded within the frame limit, and so is
    -- the response if there is one; the formats read back what they write, and the server's
    -- registry, protector and clock are given.
    pub send_raw_request-over_wire :
        ((response : AuthResponse)
          → answer request ≡ ok response
          → (encode response_format new response []).0 ≡ ok tt)
        → send_raw_request (over_wire S C conn p now request_format response_format cut) request
          ≡ seen (handle_request C S conn p now request).0
    unfolding send_raw_request
    send_raw_request-over_wire fits = rw sent (by_answer (answer request) refl fits)
