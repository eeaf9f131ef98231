-- ===== src/Pubver/Repository/Removed.antt =====
-- What the verification service says of the diplomas of a university that the gateway has removed.
use diasoft.Prelude.{
  ◌≤◌, String, ◌≡◌, ◌≢◌, sym, ap, ◌∙◌, refl, inl, inr, Option, none, some, List, [], ◌∷◌, Bool,
  true, false, ok, any, find, count, any-count, Eq-string, Option-cases, Bool-cases, arith, eq_iff,
}
use diasoft.Gateway.Store.{HashRow, UniversityRow}
use diasoft.Gateway.Batches.Registry.{has_hash}
use diasoft.Gateway.Accounts.{Surroundings}
use diasoft.Gateway.Removal.{Tables, diploma_of, except, delete_cascade}
use diasoft.Gateway.Removal.Erased.{erased, delete_cascade-cases}
use diasoft.Pubver.Domain.{VerifyResponse}
use diasoft.Pubver.Service.{VerificationService, verify_payload}
use diasoft.Pubver.Service.Outcome.{verify_payload-valid}
use diasoft.Pubver.Repository.{
  has_university, join_first, hash_is, fetch_one, find_by_hash, repository,
}
use diasoft.Pubver.Repository.Registry.{find_by_hash-hash, answered_hash}

none_kept :
    {A : Type 0} (p q : A → Bool) (xs : List A) → any p xs ≡ false → any p (except q xs) ≡ false
none_kept p q [] none_before = refl
none_kept p q (x ∷ xs) none_before = ground (arith, none_kept p q xs)

-- A row that is the only one to pass a test leaves none behind.
only_one :
    {A : Type 0} (p q : A → Bool) (xs : List A) (x : A)
    → count p xs ≤ 1
    → find p xs ≡ some x
    → q x ≡ true
    → any p (except q xs) ≡ false
only_one p q [] x one found hit = absurd (ground arith)
only_one p q (y ∷ xs) x one found hit = elim (Bool-cases (p y)) [
  | inr other ↦ ground (arith, only_one p q xs x)
  | inl first ↦
      let same : y ≡ x = ground arith in
      let gone : q y ≡ true = ap q same ∙ hit in ground (arith, any-count p xs, none_kept p q xs)
]

join_first-none :
    (hash : String) (us : List UniversityRow) (hs : List HashRow)
    → any (has_hash hash) hs ≡ false
    → join_first (hash_is hash) us hs ≡ none
unfolding join_first
join_first-none hash us [] absent = refl
join_first-none hash us (h ∷ hs) absent = elim (Option-cases (find (has_university h) us)) [
  | inl gone ↦ ground (arith, join_first-none hash us hs)
  | inr (u, there) ↦ ground (arith, join_first-none hash us hs)
]

-- Right after the removal of a university, no token makes the verification service, reading the tables
-- of the gateway, report as valid a diploma that the university had, if no other row had its hash.
pub verify_payload_removed :
    (env : Surroundings) (t t' : Tables) (hash : String) (row : HashRow) (v : VerificationService)
    (down : Bool) (as_uuid : String → Option String) (raw : String) (r : VerifyResponse)
    → delete_cascade env row.vuz_id t ≡ (ok tt, t')
    → find (has_hash hash) t.db.hashes ≡ some row
    → count (has_hash hash) t.db.hashes ≤ 1
    → v.repo ≡ repository down as_uuid t'.db
    → verify_payload v raw ≡ ok r
    → r.valid ≡ true
    → r.hash ≢ hash
unfolding find_by_hash fetch_one
verify_payload_removed env t t' hash row v down as_uuid raw r done listed unique same h valid
      equal =
    let (key, payload, w, d, found, is_active, answer) = verify_payload-valid v raw r h valid in
    let found_in_db : find_by_hash down t'.db key ≡ ok d =
      sym (ap (λ repo. repo.find_by_hash key) same) ∙ found in
    let key_is_hash : key ≡ hash =
      sym (find_by_hash-hash down t'.db key d found_in_db)
      ∙ answered_hash d payload r answer
      ∙ equal in
    let own : diploma_of row.vuz_id row ≡ true = (eq_iff row.vuz_id row.vuz_id).1 refl in
    let gone : any (has_hash hash) t'.db.hashes ≡ false =
      elim (delete_cascade-cases env row.vuz_id t) [
        | inr (e, broken) ↦ absurd (ground arith)
        | inl erases ↦
            let e : erased row.vuz_id t ≡ t' = ground arith in
            ap (λ (x : Tables). any (has_hash hash) x.db.hashes) (sym e)
            ∙ only_one (has_hash hash) (diploma_of row.vuz_id) t.db.hashes row unique listed own
      ] in
    let lost = join_first-none hash t'.db.universities t'.db.hashes gone in
    let at_hash : find_by_hash down t'.db hash ≡ ok d =
      ap (find_by_hash down t'.db) (sym key_is_hash) ∙ found_in_db in
    absurd (ground arith)
