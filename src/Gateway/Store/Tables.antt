-- ===== src/Gateway/Store/Tables.antt =====
-- The tests and the checked INSERTs of the tables, and what a search by key finds after a change.
use mathlib.Core.Option
use diasoft.Prelude.{
  code, Eq-nat, String, ◌≡◌, Option, none, some, List, [], ◌∷◌, ◌++◌, Bool, true, false, not, ◌&&◌,
  ◌||◌, ok, err, ℤ, ltb, fits_int32, char_count, any, find, update, count, refl, ◌≤◌, ◌==◌,
  Eq-string, Eq-int, if◌then◌else◌, arith, eq_iff,
}
use diasoft.Gateway.Model.{unique_violation, rejected, RowStatus, row_ok, row_error}
use diasoft.Gateway.Store.{BatchRow, ResultRow, HashRow, Tx}

abbrev pub is_result : String → ℤ → ResultRow → Bool
is_result batch_id index r = r.batch_id == batch_id && r.record_index == index

abbrev pub has_id : String → BatchRow → Bool
has_id id b = b.id == id

abbrev pub is_error : RowStatus → Bool
is_error row_ok = false
is_error row_error = true

abbrev pub is_error_of : String → ResultRow → Bool
is_error_of batch_id r = r.batch_id == batch_id && is_error r.status

abbrev pub is_diploma : String → String → HashRow → Bool
is_diploma vuz_id number h = h.vuz_id == vuz_id && h.diploma_number == number

-- A text with the character NUL, which PostgreSQL refuses.
unfoldable pub has_nul : String → Bool
has_nul String.[] = false
has_nul (String.◌∷◌ c s) = code c == 0 || has_nul s

abbrev opt_has_nul : Option String → Bool
opt_has_nul none = false
opt_has_nul (some s) = has_nul s

-- Longer than VARCHAR(64). Of a text whose excess is spaces PostgreSQL would cut these, where the model
-- refuses it.
abbrev opt_too_long : Option String → Bool
opt_too_long none = false
opt_too_long (some s) = ltb 64 (char_count s)

-- INSERT INTO batch_results: texts without NUL, VARCHAR(64), INTEGER, the reference to the batch, UNIQUE(batch_id,
-- record_index).
unfoldable pub insert_result_row : ResultRow → Tx Unit
insert_result_row r db =
    if opt_too_long r.diploma_hash || not (fits_int32 r.record_index)
    then err rejected
    else if opt_has_nul r.diploma_hash || opt_has_nul r.qr_payload || opt_has_nul r.error
    then err rejected
    else if any (is_result r.batch_id r.record_index) db.results
    then err unique_violation
    else if any (has_id r.batch_id) db.batches
    then ok (tt, record db { results = db.results ++ r ∷ [] })
    else err rejected

-- INSERT INTO diploma_hashes: texts without NUL, VARCHAR(64), VARCHAR(50), the reference to the university, the primary
-- key, UNIQUE(vuz_id, diploma_number).
unfoldable pub insert_hash_row : HashRow → Tx Unit
insert_hash_row h db =
    if ltb 64 (char_count h.hash) || ltb 50 (char_count h.diploma_number)
    then err rejected
    else if has_nul h.hash || has_nul h.diploma_number
    then err rejected
    else if any (λ o. o.hash == h.hash || is_diploma h.vuz_id h.diploma_number o) db.hashes
    then err unique_violation
    else if any (λ u. u.id == h.vuz_id) db.universities
    then ok (tt, record db { hashes = db.hashes ++ h ∷ [] })
    else err rejected

-- An UPDATE of the rows with key j, seen by the search for key i.
pub find-update :
    (i j : String) (f : BatchRow → BatchRow)
    → ((b : BatchRow) → (f b).id ≡ b.id)
    → (bs : List BatchRow)
    → find (has_id i) (update (has_id j) f bs)
      ≡ (if i == j then Option.map f (find (has_id i) bs) else find (has_id i) bs)
find-update i j f keeps [] = ground arith
find-update i j f keeps (b ∷ bs) = ground (
  arith,
  keeps b,
  find-update i j f keeps bs,
  eq_iff b.id i,
  eq_iff b.id j,
  eq_iff i j,
  eq_iff (f b).id i,
)

-- An UPDATE keeps the identifiers.
pub count-update :
    (i : String) (q : BatchRow → Bool) (f : BatchRow → BatchRow)
    → ((b : BatchRow) → (f b).id ≡ b.id)
    → (bs : List BatchRow) → count (has_id i) (update q f bs) ≡ count (has_id i) bs
count-update i q f keeps [] = refl
count-update i q f keeps (b ∷ bs) =
    ground (arith, keeps b, eq_iff b.id i, eq_iff (f b).id i, count-update i q f keeps bs)

-- The identifiers of the batches are a key.
unfoldable pub IsKeyed : List BatchRow → Type 0
IsKeyed bs = (j : String) → count (has_id j) bs ≤ 1

abbrev pub of_batch : String → ResultRow → Bool
of_batch batch_id r = r.batch_id == batch_id
