-- ===== src/Gateway/Store.antt =====
-- The tables of gateway-service/migrations that the diploma repository uses, and its transactions.
-- A table is the list of its rows in the order of insertion.
pub mod Tables
use diasoft.Prelude.{
  ℕ, String, ◌≡◌, ◌⊎◌, inl, inr, Option, List, Bool, true, false, Result, ok, err, ℤ, Result-cases,
  arith,
}
use diasoft.Gateway.Model.{Error, driver, BatchStatus, RowStatus, DiplomaStatus, ParsedQr}

-- 000004_create_batches
pub record BatchRow : Type 0 where
  pub id : String
  pub vuz_id : String
  pub status : BatchStatus
  pub total_records : ℕ
  pub processed_records : ℕ
  pub created_at : ℕ
  pub completed_at : Option ℕ

-- batch_record_payloads
pub record PayloadRow : Type 0 where
  pub batch_id : String
  pub record_index : ℕ
  pub encrypted_payload : String

-- batch_results
pub record ResultRow : Type 0 where
  pub batch_id : String
  pub record_index : ℤ
  pub diploma_hash : Option String
  pub qr_payload : Option String
  pub status : RowStatus
  pub error : Option String
  pub created_at : ℕ

-- diploma_hashes
pub record HashRow : Type 0 where
  pub hash : String
  pub vuz_id : String
  pub diploma_number : String
  pub status : DiplomaStatus
  pub created_at : ℕ
  pub revoked_at : Option ℕ

-- share_links
pub record LinkRow : Type 0 where
  pub id : String
  pub diploma_hash : String
  pub token : String
  pub expires_at : ℕ
  pub used_count : ℕ
  pub created_at : ℕ

-- universities, as far as the diploma tables and pubver refer to them
pub record UniversityRow : Type 0 where
  pub id : String
  pub name : String
  pub vuz_code : String
  pub public_key : Option String

pub record Db : Type 0 where
  pub universities : List UniversityRow
  pub batches : List BatchRow
  pub payloads : List PayloadRow
  pub results : List ResultRow
  pub hashes : List HashRow
  pub links : List LinkRow

-- The calls of the driver that a transaction makes, each of which may fail.
pub data Stmt : Type 0 where
  begin_tx commit_tx select_result select_hash insert_hash insert_result : Stmt
  increment_batch select_batch update_batch insert_batch update_hash : Stmt
  select_link insert_link update_link select_student : Stmt
  select_batches select_rows select_students : Stmt
  -- the INSERT of the payload of one record
  insert_payload : ℕ → Stmt

-- What surrounds one call: NOW(), the identifier that gen_random_uuid() gives, the calls that
-- fail, and the decoder of QR payloads, which may be nil.
pub record Env : Type 0 where
  pub now : ℕ
  pub new_id : String
  pub down : Stmt → Bool
  pub decoder : Option (String → Result Error ParsedQr)

-- The body of a transaction.
abbrev pub Tx : Type 0 → Type 0
Tx A = Db → Result Error (A × Db)

infixl 5 ◌>>=◌
abbrev pub ◌>>=◌ : {A B : Type 0} → Tx A → (A → Tx B) → Tx B
◌>>=◌ m f db = elim (m db) [ ok (a, db') ↦ f a db' | err e ↦ err e ]

abbrev pub pure : {A : Type 0} → A → Tx A
pure a db = ok (a, db)

abbrev pub fail : {A : Type 0} → Error → Tx A
fail e db = err e

-- The statement s, unless the driver fails.
abbrev pub run : {A : Type 0} → Env → Stmt → Tx A → Tx A
run env s m db = elim (env.down s) [ true ↦ err driver | false ↦ m db ]

-- `defer tx.Rollback()`: what an error ends leaves the tables as they were.
unfoldable pub transact : {A : Type 0} → Tx A → Db → Result Error A × Db
transact m db = elim (m db) [ ok (a, db') ↦ (ok a, db') | err e ↦ (err e, db) ]

-- A transaction ends in success, or in an error with the tables as they were.
pub transact-cases :
    {A : Type 0} (m : Tx A) (db : Db)
    → ((a : A) × (transact m db ≡ (ok a, (transact m db).1)))
      ⊎ ((e : Error) × (transact m db ≡ (err e, db)))
unfolding transact
transact-cases m db = elim (Result-cases (m db)) [
  | inl ((a, db'), done) ↦ inl (a, ground arith)
  | inr (e, broken) ↦ inr (e, ground arith)
]
