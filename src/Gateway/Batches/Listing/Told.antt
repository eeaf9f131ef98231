-- ===== src/Gateway/Batches/Listing/Told.antt =====
-- What a row that a university downloads tells of a result.
use diasoft.Prelude.{
  find, is_nonzero, trim_space, ◌==◌, String, ◌≡◌, refl, ap, ◌∙◌, inl, inr, Option, none, some,
  true, false, ◌&&◌, ok, bind-ok, ℤ, pos, blank, Eq-string, Eq-int, Eq-nat, arith, Bool-cases,
  Result-cases,
}
use diasoft.Gateway.Model.{UploadRecord, ParsedQr, row_ok, row_error, active, revoked}
use diasoft.Gateway.Payload.{RecordCodec, decode_batch_record_payload}
use diasoft.Gateway.Store.{HashRow, PayloadRow, ResultRow, Db, Env}
use diasoft.Gateway.Results.{parse_qr_payload}
use diasoft.Gateway.Batches.Listing.{
  DownloadRow, first_row, or_empty, shown_status, diploma_at, payload_at, first_non_empty,
  with_record, from_payload, from_qr, filled, lacks, download_row,
}

-- The data of a record stand in the row, as far as they are there.
pub record Carries (d : DownloadRow) (a_name a_number a_specialty a_degree a_faculty : String)
    (a_year : ℤ) : Type 0 where
  pub full_name : blank a_name ≡ false → d.full_name ≡ a_name
  pub diploma_number : blank a_number ≡ false → d.diploma_number ≡ a_number
  pub specialty : blank a_specialty ≡ false → d.specialty ≡ a_specialty
  pub degree : blank a_degree ≡ false → d.degree ≡ a_degree
  pub faculty : blank a_faculty ≡ false → d.faculty ≡ a_faculty
  pub year : is_nonzero a_year ≡ true → d.year ≡ a_year

-- The row of a result: its index, hash and error; its status, or for an accepted one that of the diploma with its
-- hash; the data of the sealed record with its batch and index, or where there is none of its QR payload.
pub record Tells (env : Env) (codec : Option RecordCodec) (db : Db) (r : ResultRow)
    (d : DownloadRow) : Type 0 where
  pub index : d.record_index ≡ r.record_index
  pub error : d.error ≡ r.error
  pub hash : (x : String) → r.diploma_hash ≡ some x → d.diploma_hash ≡ x
  pub no_hash : r.diploma_hash ≡ none → d.diploma_hash ≡ ""
  pub refused : r.status ≡ row_error → d.status ≡ "error"
  pub accepted_active :
      (x : String) (h : HashRow)
      → r.status ≡ row_ok
      → r.diploma_hash ≡ some x
      → find (λ h. h.hash == x) db.hashes ≡ some h
      → h.status ≡ active
      → d.status ≡ "active"
  pub accepted_revoked :
      (x : String) (h : HashRow)
      → r.status ≡ row_ok
      → r.diploma_hash ≡ some x
      → find (λ h. h.hash == x) db.hashes ≡ some h
      → h.status ≡ revoked
      → d.status ≡ "revoked"
  pub unregistered :
      (x : String)
      → r.status ≡ row_ok
      → r.diploma_hash ≡ some x
      → find (λ h. h.hash == x) db.hashes ≡ none
      → d.status ≡ "ok"
  pub sealed :
      (p : PayloadRow) (u : UploadRecord)
      → find (λ p. p.batch_id == r.batch_id && pos p.record_index == r.record_index) db.payloads
        ≡ some p
      → decode_batch_record_payload codec p.encrypted_payload ≡ ok (some u)
      → Carries d u.full_name u.diploma_number u.specialty u.degree u.faculty u.year
  pub unsealed :
      (q : String) (qr : ParsedQr)
      → find (λ p. p.batch_id == r.batch_id && pos p.record_index == r.record_index) db.payloads
        ≡ none
      → r.qr_payload ≡ some q
      → blank q ≡ false
      → parse_qr_payload env.decoder q ≡ ok qr
      → Carries d qr.full_name qr.diploma_number qr.specialty qr.degree qr.faculty qr.year

-- The parts of the row that the payloads leave alone.
record Shows (db : Db) (r : ResultRow) (d : DownloadRow) : Type 0 where
  index : d.record_index ≡ r.record_index
  hash : d.diploma_hash ≡ or_empty r.diploma_hash
  error : d.error ≡ r.error
  status : d.status ≡ shown_status r.status (diploma_at db r.diploma_hash)

Shows-with_record :
    {db : Db} {r : ResultRow} {d : DownloadRow} (u : Option UploadRecord)
    → Shows db r d
    → Shows db r (with_record d u)
Shows-with_record none s = s
Shows-with_record (some u) s = record {
  index = s.index;
  hash = s.hash;
  error = s.error;
  status = s.status;
}

Shows-from_payload :
    {db : Db} {r : ResultRow} {d : DownloadRow} (codec : Option RecordCodec) (p : Option PayloadRow)
    (d' : DownloadRow)
    → from_payload codec p d ≡ ok d'
    → Shows db r d
    → Shows db r d'
unfolding from_payload
Shows-from_payload {d} codec none d' h s = let e : d ≡ d' = ground arith in rw (← e) s
Shows-from_payload {d} codec (some p) d' h s =
    let (u, read, same) = bind-ok (decode_batch_record_payload codec p.encrypted_payload) _ h in
    let e : with_record d u ≡ d' = ground arith in rw (← e) (Shows-with_record u s)

Shows-from_qr :
    {db : Db} {r : ResultRow} {d : DownloadRow} (env : Env) (q : Option String) (d' : DownloadRow)
    → from_qr env q d ≡ ok d'
    → Shows db r d
    → Shows db r d'
unfolding from_qr
Shows-from_qr {d} env none d' h s = let e : d ≡ d' = ground arith in rw (← e) s
Shows-from_qr {db} {r} {d} env (some q) d' h s =
    let kept : Shows db r (record d { qr_payload = q }) = record {
      index = s.index;
      hash = s.hash;
      error = s.error;
      status = s.status;
    } in
    elim (Bool-cases (blank q)) [
      | inl empty ↦ let e : d ≡ d' = ground arith in rw (← e) s
      | inr full ↦ elim (Bool-cases (lacks d)) [
        | inr whole ↦ let e : record d { qr_payload = q } ≡ d' = ground arith in rw (← e) kept
        | inl partial ↦ elim (Result-cases (parse_qr_payload env.decoder q)) [
          | inr (e, broken) ↦ absurd (ground arith)
          | inl (qr, parsed) ↦
              let e : filled (record d { qr_payload = q }) qr ≡ d' = ground arith in
              let done : Shows db r (filled (record d { qr_payload = q }) qr) = record {
                index = s.index;
                hash = s.hash;
                error = s.error;
                status = s.status;
              } in
              rw (← e) done
        ]
      ]
    ]

-- A text that is there is not filled in.
filled_text :
    (old new text : String) → blank text ≡ false → old ≡ text → first_non_empty old new ≡ text
filled_text old new text there same = ground (arith, ap blank same)

empty_text : (new : String) → blank new ≡ false → first_non_empty "" new ≡ new
unfolding trim_space
empty_text new there = ground arith

module _ {full_name diploma_number specialty degree faculty : String} {year : ℤ} where
  from_qr-Carries :
      (env : Env) (q : Option String) (d d' : DownloadRow)
      → from_qr env q d ≡ ok d'
      → Carries d full_name diploma_number specialty degree faculty year
      → Carries d' full_name diploma_number specialty degree faculty year
  unfolding from_qr
  from_qr-Carries env none d d' h c = let e : d ≡ d' = ground arith in rw (← e) c
  from_qr-Carries env (some q) d d' h c =
      let kept : Carries (record d { qr_payload = q }) full_name diploma_number specialty degree
          faculty year =
        record {
          full_name = c.full_name;
          diploma_number = c.diploma_number;
          specialty = c.specialty;
          degree = c.degree;
          faculty = c.faculty;
          year = c.year;
        } in
      elim (Bool-cases (blank q)) [
        | inl empty ↦ let e : d ≡ d' = ground arith in rw (← e) c
        | inr full ↦ elim (Bool-cases (lacks d)) [
          | inr whole ↦ let e : record d { qr_payload = q } ≡ d' = ground arith in rw (← e) kept
          | inl partial ↦ elim (Result-cases (parse_qr_payload env.decoder q)) [
            | inr (e, broken) ↦ absurd (ground arith)
            | inl (qr, parsed) ↦
                let e : filled (record d { qr_payload = q }) qr ≡ d' = ground arith in
                let done : Carries (filled (record d { qr_payload = q }) qr) full_name
                    diploma_number specialty degree faculty year =
                  record {
                    full_name = λ there.
                        filled_text d.full_name qr.full_name full_name there (c.full_name there);
                    diploma_number = λ there.
                        filled_text d.diploma_number qr.diploma_number diploma_number there
                          (c.diploma_number there);
                    specialty = λ there.
                        filled_text d.specialty qr.specialty specialty there (c.specialty there);
                    degree = λ there. filled_text d.degree qr.degree degree there (c.degree there);
                    faculty =
                        λ there. filled_text d.faculty qr.faculty faculty there (c.faculty there);
                    year = λ there. ground (arith, c.year there, ap is_nonzero (c.year there));
                  } in
                rw (← e) done
          ]
        ]
      ]

module _ (env : Env) (codec : Option RecordCodec) (db : Db) (r : ResultRow) (d : DownloadRow)
    (h : download_row env codec db r ≡ ok d) where
  download_row-Shows : Shows db r d
  unfolding download_row
  download_row-Shows =
      let (first, filled_in, more) =
        bind-ok (from_payload codec (payload_at db r) (first_row db r)) _ h in
      let start : Shows db r (first_row db r) = record {
        index = refl;
        hash = refl;
        error = refl;
        status = refl;
      } in
      Shows-from_qr env r.qr_payload d more
        (Shows-from_payload codec (payload_at db r) first filled_in start)

  sealed_data :
      (p : PayloadRow) (u : UploadRecord)
      → payload_at db r ≡ some p
      → decode_batch_record_payload codec p.encrypted_payload ≡ ok (some u)
      → Carries d u.full_name u.diploma_number u.specialty u.degree u.faculty u.year
  unfolding download_row from_payload
  sealed_data p u there opened =
      let (first, filled_in, more) =
        bind-ok (from_payload codec (payload_at db r) (first_row db r)) _ h in
      let with_data : with_record (first_row db r) (some u) ≡ first = ground arith in
      let start : Carries (with_record (first_row db r) (some u)) u.full_name u.diploma_number
          u.specialty u.degree u.faculty u.year =
        record {
          full_name = λ _. refl;
          diploma_number = λ _. refl;
          specialty = λ _. refl;
          degree = λ _. refl;
          faculty = λ _. refl;
          year = λ _. refl;
        } in
      from_qr-Carries env r.qr_payload first d more (rw (← with_data) start)

  unsealed_data :
      (q : String) (qr : ParsedQr)
      → payload_at db r ≡ none
      → r.qr_payload ≡ some q
      → blank q ≡ false
      → parse_qr_payload env.decoder q ≡ ok qr
      → Carries d qr.full_name qr.diploma_number qr.specialty qr.degree qr.faculty qr.year
  unfolding download_row from_payload from_qr
  unsealed_data q qr absent given full parsed =
      let (first, filled_in, more) =
        bind-ok (from_payload codec (payload_at db r) (first_row db r)) _ h in
      let bare : first_row db r ≡ first = ground arith in
      let e : filled (record (first_row db r) { qr_payload = q }) qr ≡ d = ground arith in
      let done : Carries (filled (record (first_row db r) { qr_payload = q }) qr) qr.full_name
          qr.diploma_number qr.specialty qr.degree qr.faculty qr.year =
        record {
          full_name = λ there. empty_text qr.full_name there;
          diploma_number = λ there. empty_text qr.diploma_number there;
          specialty = λ there. empty_text qr.specialty there;
          degree = λ there. empty_text qr.degree there;
          faculty = λ there. empty_text qr.faculty there;
          year = λ there. ground arith;
        } in
      rw (← e) done

  pub download_row-Tells : Tells env codec db r d
  download_row-Tells =
      let s = download_row-Shows in
      record {
        index = s.index;
        error = s.error;
        hash = λ x given. s.hash ∙ ap or_empty given;
        no_hash = λ missing. s.hash ∙ ap or_empty missing;
        refused = λ is_error. ground (arith, s.status);
        accepted_active = λ x o good given found is_active. ground (arith, s.status);
        accepted_revoked = λ x o good given found is_revoked. ground (arith, s.status);
        unregistered = λ x good given absent. ground (arith, s.status);
        sealed = sealed_data;
        unsealed = unsealed_data;
      }
