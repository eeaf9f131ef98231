-- ===== src/Gateway/Consumer.antt =====
-- gateway-service/internal/infrastructure/kafka/consumer.go, with HandleProcessingResult of
-- internal/service/diplomas.go: the loop over the messages of the topic of results.
pub mod Commits
pub mod Completes
use diasoft.Prelude.{
  ℕ, String, Option, none, some, List, [], ◌∷◌, ◌++◌, Bool, Result, ok, err, if◌then◌else◌,
}
use diasoft.Gateway.Model.{Error, ProcessingResult}
use diasoft.Gateway.Store.{Db, Env}
use diasoft.Gateway.Results.{apply_processing_result}

pub record Message : Type 0 where
  pub offset : ℕ
  pub value : String

-- What FetchMessage and CommitMessages of the Kafka reader do in one round of the loop: the context
-- is done, the fetch fails, or a message comes and its commit goes through or not.
pub data Event : Type 0 where
  stopped fetch_failed : Event
  fetched : Env → Message → Bool → Event

-- The tables, and the messages whose commit went through, in their order.
pub record Consumer : Type 0 where
  pub db : Db
  pub committed : List Message

unfoldable pub commit_message : Message → Bool → Consumer → Consumer
commit_message m up c = if up then record c { committed = c.committed ++ m ∷ [] } else c

unfoldable pub handle_processing_result : Env → ProcessingResult → Db → Result Error Unit × Db
handle_processing_result env r db = apply_processing_result env r db

abbrev pub handled : Message → Bool → Consumer → Result Error Unit × Db → Consumer
handled m up c (ok _, db') = commit_message m up (record c { db = db' })
handled m up c (err _, db') = record c { db = db' }

-- One message; `decode` is json.Unmarshal at KafkaProcessingResult.
unfoldable pub receive_message :
    (String → Option ProcessingResult) → Env → Message → Bool → Consumer → Consumer
unfolding handle_processing_result commit_message
receive_message decode env m up c = elim (decode m.value) [
  | none ↦ commit_message m up c
  | some r ↦ handled m up c (handle_processing_result env r c.db)
]

-- The loop, over the events that it meets.
unfoldable pub start : (String → Option ProcessingResult) → List Event → Consumer → Consumer
unfolding receive_message
start decode [] c = c
start decode (stopped ∷ es) c = c
start decode (fetch_failed ∷ es) c = start decode es c
start decode (fetched env m up ∷ es) c = start decode es (receive_message decode env m up c)
