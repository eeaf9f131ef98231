-- ===== src/Gateway/Producer.antt =====
-- gateway-service/internal/infrastructure/kafka/producer.go: the tasks of an upload as messages.
pub mod Sent
use diasoft.Prelude.{String, List, [], ◌∷◌, Option, Result, ok, err, ◌>>=◌}
use diasoft.Gateway.Model.{Error}
use diasoft.Gateway.Payload.{RecordCodec}
use diasoft.Gateway.Sealing.{Bytes}
use diasoft.Gateway.Upload.{RawTask, Service}

-- kafkago.Message, with the text of its key
pub record Message : Type 0 where
  pub key : String
  pub value : Bytes

-- The producer: json.Marshal of a task, and WriteMessages of the writer for the topic.
pub record Producer : Type 0 where
  pub marshal : RawTask → Result Error Bytes
  pub write_messages : List Message → Result Error Unit

unfoldable pub messages : Producer → List RawTask → Result Error (List Message)
messages p [] = ok []
messages p (t ∷ ts) = do
  payload ← p.marshal t
  rest ← messages p ts
  ok (record { key = t.batch_id; value = payload } ∷ rest)

unfoldable pub publish_raw_tasks : Producer → List RawTask → Result Error Unit
unfolding messages
publish_raw_tasks p tasks = messages p tasks >>= p.write_messages

-- NewDiplomaService
abbrev pub diploma_service : Option RecordCodec → Producer → Service
diploma_service codec p = record { codec = codec; publish_raw_tasks = publish_raw_tasks p }
