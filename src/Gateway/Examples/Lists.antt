-- ===== src/Gateway/Examples/Lists.antt =====
-- The theorems on lists and searches, at one batch and one diploma.
use diasoft.Prelude.{contains, ◌≡◌, refl, some, trim_space, [], ◌∷◌, ok, err, order_by}
use diasoft.Gateway.Model.{message}
use diasoft.Gateway.Store.{Db, Env}
use diasoft.Gateway.Results.{parse_qr_payload}
use diasoft.Gateway.Students.{Joined, join_diploma, student_of}
use diasoft.Gateway.Students.Search.{search_students, collect}
use diasoft.Gateway.Students.Search.Found.{
  Finds, Fails, search_students-Finds, search_students-Fails,
}
use diasoft.Gateway.Examples.{env, pending_batch, sample_qr}
use diasoft.Gateway.Examples.Sharing.{diploma_db, diploma}

abbrev pub rows_db : Db
rows_db = record diploma_db { batches = pending_batch ∷ [] }

abbrev ada : Joined
ada = record {
  hash = diploma;
  qr_payload = some "qr";
  university_id = "u1";
  university_name = "University";
}

searched :
    search_students (λ text. text) env "D-1" "Ada" diploma_db ≡ ok (student_of ada sample_qr ∷ [])
unfolding search_students collect join_diploma parse_qr_payload trim_space order_by contains
searched = refl

search_students-Finds_example :
    Finds (λ text. text) env "D-1" "Ada" diploma_db (student_of ada sample_qr ∷ [])
search_students-Finds_example =
    search_students-Finds (λ text. text) env "D-1" "Ada" diploma_db (student_of ada sample_qr ∷ [])
      searched

-- A decoder that reads nothing.
abbrev blind_env : Env
blind_env = record env { decoder = some (λ payload. err (message "json")) }

unread : search_students (λ text. text) blind_env "" "Eve" diploma_db ≡ err (message "json")
unfolding search_students collect join_diploma parse_qr_payload trim_space order_by
unread = refl

search_students-Fails_example : Fails (λ text. text) blind_env "" "Eve" diploma_db (message "json")
search_students-Fails_example =
    search_students-Fails (λ text. text) blind_env "" "Eve" diploma_db (message "json") refl unread
