-- ===== src/Gateway/Examples/Registry.antt =====
-- The theorems on batches and diplomas at one batch of one record.
use diasoft.Prelude.{
  ◌≡◌, refl, some, [], ◌∷◌, true, ok, is_ok, Eq-string, ap, sym, ltb, char_count, trim_space, arith,
}
use diasoft.Gateway.Model.{failed}
use diasoft.Gateway.Store.{BatchRow, Db}
use diasoft.Gateway.Store.Tables.{has_nul}
use diasoft.Gateway.Results.{
  string_or_default, apply_processing_result, store_parsed, parse_qr_payload, register, store_ok,
}
use diasoft.Gateway.Results.Closing.{Closes, apply_processing_result-Closes}
use diasoft.Gateway.Results.Progress.{
  Fits, apply_processing_result_twice, apply_processing_result_total,
}
use diasoft.Gateway.Batches.{create_batch_with_records, mark_diploma_revoked}
use diasoft.Gateway.Batches.Refined.{Runs, registry, Reach-Runs}
use diasoft.Gateway.Batches.Lifecycle.{here, next, upload, receive, revoke}
use diasoft.Gateway.Examples.{
  pending_batch, empty_db, env, upload_record, record_codec, batch_db, message, sample_qr,
}

abbrev uploaded_db : Db
uploaded_db =
    (create_batch_with_records env (some record_codec) "u1" (upload_record ∷ []) empty_db).1

abbrev applied_db : Db
applied_db = (apply_processing_result env message batch_db).1

apply_processing_result_twice_example :
    apply_processing_result env message applied_db ≡ (ok tt, applied_db)
unfolding apply_processing_result store_parsed parse_qr_payload register store_ok trim_space has_nul
apply_processing_result_twice_example =
    apply_processing_result_twice env env message batch_db refl (refl, refl, refl)

message-Fits : Fits env message batch_db
unfolding parse_qr_payload has_nul string_or_default trim_space
message-Fits = record {
  batch_known = refl;
  index_fits = refl;
  hash_fits = refl;
  number_fits = λ payload qr given parsed.
      let same : sample_qr ≡ qr = ground arith in
      ap (λ q. ltb 50 (char_count q.diploma_number)) (sym same);
  error_has_no_nul = refl;
  hash_has_no_nul = refl;
  payload_has_no_nul =
      λ payload given. let same : "qr" ≡ payload = ground arith in ap has_nul (sym same);
  number_has_no_nul = λ payload qr given parsed.
      let same : sample_qr ≡ qr = ground arith in ap (λ q. has_nul q.diploma_number) (sym same);
  university_known = refl;
  hash_free = λ payload qr given parsed free. refl;
}

apply_processing_result_total_example :
    is_ok (apply_processing_result env message batch_db).0 ≡ true
apply_processing_result_total_example =
    apply_processing_result_total env (λ _. refl) message batch_db message-Fits

abbrev marked_batch : BatchRow
marked_batch = record pending_batch { status = failed; completed_at = some 90 }

abbrev marked_db : Db
marked_db = record empty_db { batches = marked_batch ∷ [] }

-- A batch that was marked as failed is completed by its last result.
apply_processing_result-Closes_example :
    (b' : BatchRow) × Closes env marked_batch (apply_processing_result env message marked_db).1 b'
unfolding apply_processing_result store_parsed parse_qr_payload register store_ok trim_space has_nul
apply_processing_result-Closes_example =
    apply_processing_result-Closes env marked_batch (omega arith) message marked_db
      (apply_processing_result env message marked_db).1 refl refl refl refl

-- An upload, the result of its record, and a revocation.
Reach-Runs_example : Runs (registry empty_db) (
    registry
      (mark_diploma_revoked env "u1" "h1" (apply_processing_result env message uploaded_db).1).1)
Reach-Runs_example = Reach-Runs (
    next
      (next (next here (upload env (some record_codec) "u1" (upload_record ∷ []) (omega arith)))
        (receive env message))
      (revoke env "u1" "h1"))
