-- ===== src/Gateway/Accounts/Lists.antt =====
-- List of university_repository.go and Stats of admin_repository.go.
use diasoft.Prelude.{
  ℕ, String, List, Bool, true, false, Result, ok, err, leb, count, length, order_by, ◌==◌,
  Eq-string,
}
use diasoft.Gateway.Model.{Error, driver, active, revoked}
use diasoft.Gateway.Store.{HashRow, Db}
use diasoft.Gateway.Accounts.{
  University, Accounts, Surroundings, Call, statement, list_universities, select_stats,
}

abbrev pub newer : University → University → Bool
newer a b = leb b.created_at a.created_at

-- ORDER BY created_at DESC
unfoldable pub list : Surroundings → Call (List University)
list env = statement env list_universities λ db. (ok (order_by newer db.universities), db)

pub record AdminStats : Type 0 where
  pub total_universities : ℕ
  pub pending_universities : ℕ
  pub active_universities : ℕ
  pub blocked_universities : ℕ
  pub total_batches : ℕ
  pub total_diplomas : ℕ
  pub revoked_diplomas : ℕ

abbrev pub has_status : String → University → Bool
has_status status u = u.status == status

abbrev pub is_revoked : HashRow → Bool
is_revoked h = elim h.status [ active ↦ false | revoked ↦ true ]

unfoldable pub stats : Surroundings → Accounts → Db → Result Error AdminStats
stats env accounts db = elim (env.down select_stats) [
  | true ↦ err driver
  | false ↦ ok (record {
    total_universities = length accounts.universities;
    pending_universities = count (has_status "pending") accounts.universities;
    active_universities = count (has_status "active") accounts.universities;
    blocked_universities = count (has_status "blocked") accounts.universities;
    total_batches = length db.batches;
    total_diplomas = length db.hashes;
    revoked_diplomas = count is_revoked db.hashes;
  })
]
