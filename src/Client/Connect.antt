-- ===== src/Client/Connect.antt =====
-- src/tcp/client.rs: `connect`. What `TcpStream::connect` gives for an address is an argument.
use zkp_verifier.Common.{String, Outcome, ok, ◌>>=◌}
use zkp_verifier.Codec.{ZkpMessageCodec, new}

module _ (TcpStream : Type 0) where
  -- `Framed`: the stream with the codec of its messages.
  pub record UserProverClient : Type 0 where
    pub stream : TcpStream
    pub codec : ZkpMessageCodec

  unfoldable pub connect :
      (String → Outcome String TcpStream) → String → Outcome String UserProverClient
  connect tcp_connect addr = do
    stream ← tcp_connect addr
    ok (record { stream = stream; codec = new })
