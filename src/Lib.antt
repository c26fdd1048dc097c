-- ===== src/Lib.antt =====
-- A verification library for zkp_verifier: Schnorr identification over secp256k1, made
-- non-interactive by the Fiat-Shamir transform, with a bank that verifies proofs over TCP and over
-- Kafka.
--
-- The program. A prover makes a proof of its secret key, bound to a timestamp and a random nonce
-- (src/zkp_core_engine.rs), and sends it in a request (src/protocol.rs), framed by a length
-- (src/codec.rs) over TCP, or as a JSON record over Kafka. The bank looks the user up in a SQLite
-- registry (src/storage.rs), compares the key, asks the replay protector that all connections share
-- (src/replay.rs), verifies the proof, and answers (src/tcp/server.rs, src/kafka/verifier.rs).
--
-- The files, with the code that each models:
--   Proof.antt: `ZkpError` and `Proof` of src/zkp_core_engine.rs.
--   Engine.antt: keys, `generate_proof_with_time`, `verify`, `compute_challenge` and `is_fresh` of
--     src/zkp_core_engine.rs, function for function; below it, one file for each kind of property.
--   Replay.antt: `ReplayProtector` of src/replay.rs. `check_and_record` is `check_drift`, the tests
--     before the lock, and `record_nonce`, what happens under the lock; Replay/Race.antt has the
--     steps of several tasks between the two, and Replay/History.antt the rule that it keeps.
--   Codec.antt: `ZkpMessageCodec` of src/codec.rs, a buffer being the list of its bytes.
--   Protocol.antt and its children: the messages of src/protocol.rs and their conversions.
--   Storage.antt: `UserRegistry` of src/storage.rs, method for method; Storage/Map.antt has the map
--     that it implements. Storage/Sqlite.antt is a grammar of SQL statements on the table, with
--     their texts and their meaning on its rows.
--   Server.antt: `handle_connection` of src/tcp/server.rs; `handle_request` is the body of its loop.
--     Server/Run.antt has `bind`, the builder methods and `run`, and Server/System.antt the tasks
--     that `run` spawns, side by side, as a step relation on the state that they share.
--   Client.antt: `authenticate` and `send_raw_request` of src/tcp/client.rs; Client/Connect.antt
--     has `connect`, and Client/Wire.antt puts the client, the codec and the server together.
--   Kafka/Verifier.antt, Kafka/Worker.antt: `process_record` and `run` of src/kafka/verifier.rs;
--     Kafka/Worker/New.antt has `new` and the builder methods, and Kafka/Worker/Polls.antt the loop
--     with its fetches from a topic.
--   Kafka/Prover.antt: `submit_verification` and `wait_for_response` of src/kafka/prover.rs;
--     Kafka/Log.antt is the topic of the responses that the second one reads, and
--     Kafka/Prover/New.antt has `new`.
--   KeyFile.antt: `hex_string`, `hex_decode` and `trim` of src/bin/user_client.rs.
--   Cli.antt: the loop over the command line of the programs under src/bin, and below it the options
--     of each.
--   Programs.antt: the key management of src/bin/user_client.rs and src/bin/kafka_prover.rs, and
--     below it `main` of each program behind its options.
--   Common.antt, HashMap.antt: shared names and lemmas, and the operations of `HashMap` in use.
--   Curve.antt, Database.antt: the crates below.
--   Examples.antt and its children: the properties at concrete inputs.
--
-- What stands outside is a parameter: the operations of `k256` and `sha2` (Curve.antt, with the
-- documented laws of the group, of the encodings and of the hash apart), the calls of `rusqlite`
-- (Database.antt), the disk (FileSystem.antt), and `bincode` and `serde_json` (`Format`). What SQLite
-- does is stated for every statement of the grammar in Storage/Sqlite.antt, also for those that the
-- program does not use. Storage/Sqlite/Written.antt finds the program's own statements there by their
-- text, and gets from it the laws in Storage/Sql.antt, which the theorems on the programs take. Clock readings, random draws, and
-- what the network or Kafka gives are arguments. No collision resistance is assumed: a theorem that
-- needs it answers with the collision. Examples instantiates the parameters with a group of two
-- elements, an association list and formats of one byte.
--
-- Numbers and failures. A byte is a number; an i64 is an integer whose subtraction and negation wrap
-- around, as in a release build (a debug build panics there). The clock and the drift are taken to
-- lie between 0 and 2 ^ 62, in seconds; timestamps are any i64. A nonce is a list of bytes of any
-- length. An offset of Kafka is an integer, whose addition does not overflow. `Outcome` has `ok`, `err` and `panic`, for `expect`, `unwrap` and `from_slice`.
--
-- Fuel: the reader of a stream (`drain`) has one unit for each call of `decode`; a call that gives a
-- message takes at least four bytes, so that one unit more than the bytes is enough, and every use
-- gives that. The loop over the command line has one unit more than there are arguments, of which a
-- round takes at least one. `wait_rounds` and the two `run` are recursions over the rounds and events
-- that take place.
--
-- Not modelled: what sockets, the Kafka client and the operating system do, whose outcomes are
-- arguments, and a panic of the Kafka client in a fetch; lock poisoning; buffer capacities; the zeroing of memory; what the programs print, but
-- for the responses and the list of keys; src/main.rs, which prints alone. A handle of the database
-- stands for the state of the database that it meets. A request's clock reading and its call of the
-- protector are one step in Server/System.antt, and several in Replay/Race.antt.
pub mod Common
pub mod HashMap
pub mod Curve
pub mod Database
pub mod Proof
pub mod Protocol
pub mod Engine
pub mod Replay
pub mod Codec
pub mod Storage
pub mod Server
pub mod Client
pub mod Kafka
pub mod KeyFile
pub mod FileSystem
pub mod Cli
pub mod Programs
pub mod Examples
