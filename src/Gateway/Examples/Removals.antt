-- ===== src/Gateway/Examples/Removals.antt =====
-- The theorems on the removal of a university, at one with a diploma and a batch.
use diasoft.Gateway.Model.{completed, processing, ProcessingResult}
use diasoft.Gateway.Payload.{encode_batch_record_payload}
use diasoft.Gateway.Store.{BatchRow, transact}
use diasoft.Gateway.Results.{
  apply_processing_result, store_parsed, parse_qr_payload, register, store_ok,
}
use diasoft.Prelude.{
  ℕ, ◌<◌, ◌≢◌, ap, String, Option, List, any, find, trim_space, some, ◌≡◌, refl, [], ◌∷◌, true,
  is_ok, ok, arith, Eq-string,
}
use diasoft.Gateway.Store.Tables.{has_nul, has_id, IsKeyed}
use diasoft.Gateway.Batches.{create_batch_with_records, insert_payloads, new_batch}
use diasoft.Gateway.Consumer.{
  Consumer, Event, fetched, fetch_failed, start, receive_message, commit_message,
}
use diasoft.Gateway.Consumer.Completes.{is_result_of, start_completes}
use diasoft.Gateway.Batches.Lifecycle.{upload, receive}
use diasoft.Gateway.Removal.{
  Tables, delete_body, delete_cascade, delete_hashes_of, delete_university_of,
}
use diasoft.Gateway.Removal.Erased.{Erases, erased, delete_cascade-Erases, delete_cascade_total}
use diasoft.Gateway.Removal.Life.{born, step, operate, remove, IsSound, Life-IsSound}
use diasoft.Gateway.Results.Invariant.{no_rows-IsConsistent}
use diasoft.Gateway.Examples.{empty_db, batch_db, env, upload_record, record_codec, message}
use diasoft.Gateway.Examples.Entry.{accounts, surroundings}
use diasoft.Gateway.Examples.Sharing.{diploma_db}

abbrev tables : Tables
tables = record { accounts = accounts; db = record diploma_db { batches = batch_db.batches } }

removed : delete_cascade surroundings "u1" tables ≡ (ok tt, erased "u1" tables)
unfolding delete_cascade delete_body delete_hashes_of delete_university_of
removed = refl

delete_cascade-Erases_example : Erases "u1" tables (erased "u1" tables)
delete_cascade-Erases_example =
    delete_cascade-Erases surroundings "u1" tables (erased "u1" tables) removed

delete_cascade_total_example : is_ok (delete_cascade surroundings "u1" tables).0 ≡ true
delete_cascade_total_example = delete_cascade_total surroundings "u1" tables (λ _. refl) refl

abbrev fresh : Tables
fresh = record { accounts = accounts; db = empty_db }

fresh-IsSound : IsSound fresh
unfolding IsKeyed
fresh-IsSound = record {
  keyed = λ j. omega arith;
  consistent = no_rows-IsConsistent empty_db refl refl;
}

abbrev uploaded : Tables
uploaded = record fresh {
  db = (create_batch_with_records env (some record_codec) "u1" (upload_record ∷ []) empty_db).1;
}

-- An upload, the result of its record, and the removal of the university.
Life-IsSound_example :
    IsSound
      (delete_cascade surroundings "u1"
        (record uploaded { db = (apply_processing_result env message uploaded.db).1 })).1
Life-IsSound_example = Life-IsSound fresh-IsSound (
    step
      (step
        (step born
          (operate (upload env (some record_codec) "u1" (upload_record ∷ []) (omega arith))))
        (operate (receive env message)))
      (remove surroundings "u1"))

uploaded-IsSound : IsSound uploaded
uploaded-IsSound =
    Life-IsSound fresh-IsSound
      (step born (operate (upload env (some record_codec) "u1" (upload_record ∷ []) (omega arith))))

abbrev decode : String → Option ProcessingResult
decode text = some message

abbrev waiting : Consumer
waiting = record { db = uploaded.db; committed = [] }

abbrev events : List Event
events = fetch_failed ∷ fetched env (record { offset = 0; value = "result" }) true ∷ []

abbrev closed : BatchRow
closed = record (new_batch env "u1" (upload_record ∷ [])) {
  status = completed;
  processed_records = 1;
  completed_at = some 100;
}

closed_last : find (has_id "b1") (start decode events waiting).db.batches ≡ some closed
unfolding start receive_message commit_message apply_processing_result store_parsed parse_qr_payload
    register store_ok trim_space has_nul create_batch_with_records insert_payloads
    encode_batch_record_payload transact
closed_last = refl

all_committed :
    (i : ℕ)
    → i < 1
    → any (is_result_of decode "b1" i) (start decode events waiting).committed ≡ true
unfolding start receive_message commit_message apply_processing_result store_parsed parse_qr_payload
    register store_ok trim_space has_nul create_batch_with_records insert_payloads
    encode_batch_record_payload transact
all_committed i less =
    let first : i ≡ 0 = omega arith in
    ap (λ n. any (is_result_of decode "b1" n) (start decode events waiting).committed) first

start_completes_example : completed ≢ processing
start_completes_example =
    start_completes decode events waiting "b1" closed uploaded-IsSound.consistent tt closed_last
      all_committed
