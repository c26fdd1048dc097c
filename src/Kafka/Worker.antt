-- ===== src/Kafka/Worker.antt =====
-- src/kafka/verifier.rs: `run`, the loop of the worker, over the events that its `select!` meets.
pub mod Panic
pub mod Batches
pub mod Polls
pub mod Follows
pub mod Served
pub mod Once
pub mod New
use zkp_verifier.Common.{
  String, Bool, true, false, Option, none, some, List, [], ◌∷◌, ◌++◌, Outcome, ok, err, panic,
}
use zkp_verifier.Common.Int.{ℤ, pos, ◌+ℤ◌}
use zkp_verifier.Curve.{Curve}
use zkp_verifier.Database.{Rusqlite}
use zkp_verifier.Protocol.{KafkaAuthRequest, KafkaAuthResponse, Format}
use zkp_verifier.Replay.{ReplayProtector}
use zkp_verifier.Kafka.{Record, KafkaError, Reply, brings, brings_error}
use zkp_verifier.Kafka.Verifier.{Moment, Processed, process_record}

-- How a run ends: by the shutdown signal, by a panic, or not within the events.
pub data Ending : Type 0 where
  stopped panicked running : Ending

pub record Run : Type 0 where
  pub offset : ℤ
  pub protector : ReplayProtector
  pub published : List Record
  pub ending : Ending

-- `match get_offset(…) { Ok(off) => off, Err(_) => 0 }`
unfoldable pub first_offset : Reply ℤ → ℤ
first_offset (brings off) = off
first_offset (brings_error e) = pos 0

abbrev pub opt_list : Option Record → List Record
opt_list none = []
opt_list (some r) = r ∷ []

module _ (C : Curve) (S : Rusqlite) where
  -- A record with its offset and what it meets.
  pub record Fetched : Type 0 where
    pub offset : ℤ
    pub record_ : Record
    pub moment : Moment C S

  pub data Event : Type 0 where
    -- The shutdown channel has changed, and holds this.
    shutdown : Bool → Event
    -- Records, with the high watermark, which decides on a pause alone.
    fetched : List Fetched → ℤ → Event
    fetch_failed : String → Event

  module _ (json : Format KafkaAuthRequest) (bincode : Format KafkaAuthRequest)
      (response_json : Format KafkaAuthResponse) where
    abbrev pub publish_before : Option Record → Run → Run
    publish_before r rest = record rest { published = opt_list r ++ rest.published }

    -- An error of one record is printed, and the next record follows; a panic ends the run.
    abbrev pub after_record :
        ℤ → Processed C S → Outcome KafkaError (Unit {0}) → (ReplayProtector → Run) → Run
    after_record offset r (ok _) continue = publish_before r.published (continue r.protector)
    after_record offset r (err _) continue = publish_before r.published (continue r.protector)
    after_record offset r panic continue = record {
      offset = offset;
      protector = r.protector;
      published = opt_list r.published;
      ending = panicked;
    }

    unfoldable pub process_records :
        ℤ → ReplayProtector → List Fetched → (ℤ → ReplayProtector → Run) → Run
    process_records offset p [] continue = continue offset p
    process_records offset p (f ∷ fs) continue =
        let r = process_record C S json bincode response_json f.moment p f.record_ in
        after_record (f.offset +ℤ pos 1) r r.result
          (λ q. process_records (f.offset +ℤ pos 1) q fs continue)

    unfoldable pub run : ℤ → ReplayProtector → List Event → Run
    unfolding process_records
    run offset p [] = record { offset = offset; protector = p; published = []; ending = running }
    run offset p (shutdown true ∷ es) = record {
      offset = offset;
      protector = p;
      published = [];
      ending = stopped;
    }
    run offset p (shutdown false ∷ es) = run offset p es
    run offset p (fetched fs high_watermark ∷ es) =
        process_records offset p fs (λ next q. run next q es)
    run offset p (fetch_failed e ∷ es) = run offset p es
