-- ===== src/Gateway/Producer/Sent.antt =====
-- What an upload sends to Kafka.
use diasoft.Prelude.{String, ◌≡◌, refl, sym, Option, List, [], ◌∷◌, ok, length, bind-ok, arith}
use diasoft.Gateway.Model.{UploadRecord}
use diasoft.Gateway.Payload.{RecordCodec}
use diasoft.Gateway.Store.{Db, Env}
use diasoft.Gateway.Batches.Created.{Creates}
use diasoft.Gateway.Upload.{RawTask, Uploaded, upload}
use diasoft.Gateway.Upload.Published.{Tasks, upload-Tasks}
use diasoft.Gateway.Producer.{Message, Producer, messages, publish_raw_tasks, diploma_service}

-- One message for each task, in order: the task as it is marshalled, under the key of its batch.
abbrev pub Carries : Producer → List RawTask → List Message → Type 0
Carries p [] [] = Unit
Carries p [] (m ∷ ms) = ⊥
Carries p (t ∷ ts) [] = ⊥
Carries p (t ∷ ts) (m ∷ ms) = (m.key ≡ t.batch_id) × (p.marshal t ≡ ok m.value) × Carries p ts ms

messages-Carries :
    (p : Producer) (ts : List RawTask) (ms : List Message) → messages p ts ≡ ok ms → Carries p ts ms
unfolding messages
messages-Carries p [] ms h = let none_sent : [] ≡ ms = ground (arith, h) in rw (sym none_sent) tt
messages-Carries p (t ∷ ts) ms h =
    let (payload, a, h1) = bind-ok (p.marshal t) _ h in
    let (rest, b, h2) = bind-ok (messages p ts) _ h1 in
    let same : record { key = t.batch_id; value = payload } ∷ rest ≡ ms = ground (arith, h2) in
    rw (sym same) (refl, a, messages-Carries p ts rest b)

-- An upload that succeeds has created a batch of all the records, and handed to Kafka, in one call that
-- went through, one message for each of them in order, with the batch as its key, and as its value,
-- marshalled, the record with its index and the identifiers of the batch and the university.
pub upload-Carries :
    (codec : Option RecordCodec) (p : Producer) (env : Env) (vuz_id : String)
    (records : List UploadRecord) (db : Db) (u : Uploaded) (db' : Db)
    → upload (diploma_service codec p) env vuz_id records db ≡ (ok u, db')
    → Creates env codec vuz_id records db db'
      × (u.batch_id ≡ env.new_id)
      × (tasks : List RawTask) × Tasks env.new_id vuz_id (length records) 0 records tasks
      × (ms : List Message) × Carries p tasks ms
      × (p.write_messages ms ≡ ok tt)
unfolding publish_raw_tasks
upload-Carries codec p env vuz_id records db u db' h =
    let (creates, id, tasks, numbered, sent) =
      upload-Tasks (diploma_service codec p) env vuz_id records db u db' h in
    let (ms, made, written) = bind-ok (messages p tasks) p.write_messages sent in
    (creates, id, tasks, numbered, ms, messages-Carries p tasks ms made, written)
