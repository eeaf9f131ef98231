-- ===== src/Gateway/Removal.antt =====
-- DeleteCascade of gateway-service/internal/repository/postgres/university_repository.go, over the
-- accounts and the tables of diplomas.
pub mod Afterwards
pub mod Consistent
pub mod Erased
pub mod Life
use diasoft.Prelude.{
  ℕ, String, ◌≡◌, Option, none, some, List, [], ◌∷◌, Bool, true, false, not, ◌&&◌, ◌||◌, Result, ok,
  err, ◌>>=◌, any, select, ◌==◌, Eq-string, if◌then◌else◌,
}
use diasoft.Gateway.Model.{Error, no_rows, driver, rejected}
use diasoft.Gateway.Store.{BatchRow, PayloadRow, ResultRow, HashRow, LinkRow, UniversityRow, Db}
use diasoft.Gateway.Accounts.{
  Accounts, University, ApiKey, SigningKey, Surroundings, Query, begin_tx, commit_tx,
  select_university, delete_links, delete_batches, delete_hashes, delete_university, has_id,
}

-- All tables of the gateway. The rows of universities stand in both parts.
pub record Tables : Type 0 where
  pub accounts : Accounts
  pub db : Db

-- The rows of a university.
abbrev pub is_university : String → UniversityRow → Bool
is_university id u = u.id == id

abbrev pub batch_of : String → BatchRow → Bool
batch_of id b = b.vuz_id == id

abbrev pub diploma_of : String → HashRow → Bool
diploma_of id h = h.vuz_id == id

abbrev pub key_of : String → ApiKey → Bool
key_of id k = k.vuz_id == id

abbrev pub signing_key_of : String → SigningKey → Bool
signing_key_of id k = k.vuz_id == id

-- diploma_hash IN (SELECT hash FROM diploma_hashes WHERE vuz_id = id)
abbrev pub link_of : String → List HashRow → LinkRow → Bool
link_of id hs l = any (λ h. diploma_of id h && h.hash == l.diploma_hash) hs

-- The row belongs to a batch of the university.
abbrev pub result_of : String → List BatchRow → ResultRow → Bool
result_of id bs r = any (λ b. batch_of id b && b.id == r.batch_id) bs

abbrev pub payload_of : String → List BatchRow → PayloadRow → Bool
payload_of id bs p = any (λ b. batch_of id b && b.id == p.batch_id) bs

-- DELETE FROM a table: the rows that stay.
abbrev pub except : {A : Type 0} → (A → Bool) → List A → List A
except p xs = select (λ x. not (p x)) xs

-- A statement, unless the driver fails.
abbrev run : Surroundings → Query → (Tables → Result Error Tables) → Tables → Result Error Tables
run env q m t = elim (env.down q) [ true ↦ err driver | false ↦ m t ]

abbrev pub without_links : String → Tables → Tables
without_links id t = record t {
  db = record t.db { links = except (link_of id t.db.hashes) t.db.links };
}

-- ON DELETE CASCADE for the results and the payloads.
abbrev pub without_batches : String → Tables → Tables
without_batches id t = record t {
  db = record t.db {
    batches = except (batch_of id) t.db.batches;
    results = except (result_of id t.db.batches) t.db.results;
    payloads = except (payload_of id t.db.batches) t.db.payloads;
  };
}

abbrev pub without_hashes : String → Tables → Tables
without_hashes id t = record t { db = record t.db { hashes = except (diploma_of id) t.db.hashes } }

-- ON DELETE CASCADE for the keys.
abbrev pub without_university : String → Tables → Tables
without_university id t = record t {
  accounts = record t.accounts {
    universities = except (has_id id) t.accounts.universities;
    api_keys = except (key_of id) t.accounts.api_keys;
    signing_keys = except (signing_key_of id) t.accounts.signing_keys;
  };
  db = record t.db { universities = except (is_university id) t.db.universities };
}

-- The references of the links to the diplomas are checked.
unfoldable pub delete_hashes_of : String → Tables → Result Error Tables
delete_hashes_of id t =
    if any (link_of id t.db.hashes) t.db.links then err rejected else ok (without_hashes id t)

-- The references of the batches and the diplomas to the university are checked; no row affected is
-- ErrNoRows.
unfoldable pub delete_university_of : String → Tables → Result Error Tables
delete_university_of id t =
    if any (batch_of id) t.db.batches || any (diploma_of id) t.db.hashes
    then err rejected
    else if any (has_id id) t.accounts.universities
    then ok (without_university id t)
    else err no_rows

unfoldable pub delete_body : Surroundings → String → Tables → Result Error Tables
unfolding delete_hashes_of delete_university_of
delete_body env id t0 = do
  t ← run env begin_tx ok t0
  t ←
      run env select_university
        (λ t. if any (has_id id) t.accounts.universities then ok t else err no_rows) t
  t ← run env delete_links (λ t. ok (without_links id t)) t
  t ← run env delete_batches (λ t. ok (without_batches id t)) t
  t ← run env delete_hashes (delete_hashes_of id) t
  t ← run env delete_university (delete_university_of id) t
  run env commit_tx ok t

-- An error rolls the transaction back.
unfoldable pub delete_cascade : Surroundings → String → Tables → Result Error Unit × Tables
unfolding delete_body
delete_cascade env id t = elim (delete_body env id t) [ ok t' ↦ (ok tt, t') | err e ↦ (err e, t) ]
