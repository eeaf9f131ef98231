-- ===== src/Gateway/Removal/Erased.antt =====
-- What the removal of a university leaves behind.
use diasoft.Prelude.{
  ◌⊎◌, inl, inr, err, Result-cases, String, ◌≡◌, ◌≢◌, refl, ap, ◌∙◌, Bool, true, false, not, ◌&&◌,
  List, [], ◌∷◌, ok, any, select, is_ok, ◌==◌, Eq-string, arith, eq_iff, select-select,
}
use diasoft.Gateway.Model.{Error}
use diasoft.Gateway.Store.{UniversityRow, BatchRow, PayloadRow, HashRow, LinkRow}
use diasoft.Gateway.Store.Tables.{of_batch}
use diasoft.Gateway.Accounts.{
  Surroundings, Query, University, ApiKey, SigningKey, has_id, begin_tx, commit_tx,
  select_university, delete_links, delete_batches, delete_hashes, delete_university,
}
use diasoft.Gateway.Removal.{
  Tables, is_university, batch_of, diploma_of, key_of, signing_key_of, link_of, result_of,
  payload_of, except, without_links, without_batches, without_hashes, without_university,
  delete_hashes_of, delete_university_of, delete_body, delete_cascade,
}

-- The university has a batch with the identifier j, a diploma with the hash x.
abbrev pub has_batch : String → String → Tables → Bool
has_batch id j t = any (λ b. batch_of id b && b.id == j) t.db.batches

abbrev pub has_diploma : String → String → Tables → Bool
has_diploma id x t = any (λ h. diploma_of id h && h.hash == x) t.db.hashes

abbrev link_to : String → LinkRow → Bool
link_to x l = l.diploma_hash == x

abbrev payload_in : String → PayloadRow → Bool
payload_in j p = p.batch_id == j

-- No row of the university is left, no result or payload of its batches, no link to its diplomas;
-- and every other row is there as it was.
pub record Erases (id : String) (t t' : Tables) : Type 0 where
  pub no_university : any (has_id id) t'.accounts.universities ≡ false
  pub no_row : any (is_university id) t'.db.universities ≡ false
  pub no_key : any (key_of id) t'.accounts.api_keys ≡ false
  pub no_signing_key : any (signing_key_of id) t'.accounts.signing_keys ≡ false
  pub no_batch : any (batch_of id) t'.db.batches ≡ false
  pub no_diploma : any (diploma_of id) t'.db.hashes ≡ false
  pub no_result : (j : String) → has_batch id j t ≡ true → any (of_batch j) t'.db.results ≡ false
  pub no_payload :
      (j : String) → has_batch id j t ≡ true → any (payload_in j) t'.db.payloads ≡ false
  pub no_link : (x : String) → has_diploma id x t ≡ true → any (link_to x) t'.db.links ≡ false
  pub universities :
      (i : String)
      → i ≢ id
      → select (has_id i) t'.accounts.universities ≡ select (has_id i) t.accounts.universities
  pub rows :
      (i : String)
      → i ≢ id
      → select (is_university i) t'.db.universities ≡ select (is_university i) t.db.universities
  pub keys :
      (i : String)
      → i ≢ id
      → select (key_of i) t'.accounts.api_keys ≡ select (key_of i) t.accounts.api_keys
  pub signing_keys :
      (i : String)
      → i ≢ id
      → select (signing_key_of i) t'.accounts.signing_keys
        ≡ select (signing_key_of i) t.accounts.signing_keys
  pub batches :
      (i : String) → i ≢ id → select (batch_of i) t'.db.batches ≡ select (batch_of i) t.db.batches
  pub diplomas :
      (i : String) → i ≢ id → select (diploma_of i) t'.db.hashes ≡ select (diploma_of i) t.db.hashes
  pub results :
      (j : String)
      → has_batch id j t ≡ false
      → select (of_batch j) t'.db.results ≡ select (of_batch j) t.db.results
  pub payloads :
      (j : String)
      → has_batch id j t ≡ false
      → select (payload_in j) t'.db.payloads ≡ select (payload_in j) t.db.payloads
  pub links :
      (x : String)
      → has_diploma id x t ≡ false
      → select (link_to x) t'.db.links ≡ select (link_to x) t.db.links
  pub admins : t'.accounts.admins ≡ t.accounts.admins

abbrev pub erased : String → Tables → Tables
erased id t = without_university id (without_hashes id (without_batches id (without_links id t)))

module _ {A : Type 0} where
  -- What passes a test that is deleted is gone, and what the deletion does not touch is kept.
  pub gone :
      (p q : A → Bool) (xs : List A)
      → ((x : A) → p x ≡ true → q x ≡ true)
      → any p (except q xs) ≡ false
  gone p q [] h = refl
  gone p q (x ∷ xs) h = ground (arith, h x, gone p q xs h)

  pub none_left : (p : A → Bool) (xs : List A) → any p (except p xs) ≡ false
  none_left p xs = gone p p xs (λ x h. h)

  pub kept :
      (p q : A → Bool) (xs : List A)
      → ((x : A) → p x ≡ true → q x ≡ false)
      → select p (except q xs) ≡ select p xs
  kept p q xs h = select-select p (λ x. not (q x)) (λ x e. ap not (h x e)) xs

  pub kept_key :
      (key : A → String) (i id : String) (xs : List A)
      → i ≢ id
      → select (λ x. key x == i) (except (λ x. key x == id) xs) ≡ select (λ x. key x == i) xs
  kept_key key i id xs other =
      kept (λ x. key x == i) (λ x. key x == id) xs
        λ x h. ground (arith, eq_iff (key x) i, eq_iff (key x) id, other)

pub delete_cascade-cases :
    (env : Surroundings) (id : String) (t : Tables)
    → (delete_cascade env id t ≡ (ok tt, erased id t))
      ⊎ ((e : Error) × (delete_cascade env id t ≡ (err e, t)))
unfolding delete_cascade delete_body delete_hashes_of delete_university_of
delete_cascade-cases env id t = elim (Result-cases (delete_body env id t)) [
  | inl (t', done) ↦ inl (ground arith)
  | inr (e, broken) ↦ inr (e, ground arith)
]

module _ (id : String) (t : Tables) where
  pub in_batch :
      (j k : String)
      → (k == j) ≡ true
      → any (λ b. batch_of id b && b.id == k) t.db.batches ≡ has_batch id j t
  in_batch j k h = ap (λ i. any (λ b. batch_of id b && b.id == i) t.db.batches) ((eq_iff k j).0 h)

  of_diploma :
      (x y : String)
      → (y == x) ≡ true
      → any (λ h. diploma_of id h && h.hash == y) t.db.hashes ≡ has_diploma id x t
  of_diploma x y h =
      ap (λ i. any (λ h. diploma_of id h && h.hash == i) t.db.hashes) ((eq_iff y x).0 h)

  erased-Erases : Erases id t (erased id t)
  erased-Erases = record {
    no_university = none_left (has_id id) t.accounts.universities;
    no_row = none_left (is_university id) t.db.universities;
    no_key = none_left (key_of id) t.accounts.api_keys;
    no_signing_key = none_left (signing_key_of id) t.accounts.signing_keys;
    no_batch = none_left (batch_of id) t.db.batches;
    no_diploma = none_left (diploma_of id) t.db.hashes;
    no_result = λ j has.
        gone (of_batch j) (result_of id t.db.batches) t.db.results
          λ r h. in_batch j r.batch_id h ∙ has;
    no_payload = λ j has.
        gone (payload_in j) (payload_of id t.db.batches) t.db.payloads
          λ p h. in_batch j p.batch_id h ∙ has;
    no_link = λ x has.
        gone (link_to x) (link_of id t.db.hashes) t.db.links
          λ l h. of_diploma x l.diploma_hash h ∙ has;
    universities = λ i. kept_key (λ (u : University). u.id) i id t.accounts.universities;
    rows = λ i. kept_key (λ (u : UniversityRow). u.id) i id t.db.universities;
    keys = λ i. kept_key (λ (k : ApiKey). k.vuz_id) i id t.accounts.api_keys;
    signing_keys = λ i. kept_key (λ (k : SigningKey). k.vuz_id) i id t.accounts.signing_keys;
    batches = λ i. kept_key (λ (b : BatchRow). b.vuz_id) i id t.db.batches;
    diplomas = λ i. kept_key (λ (h : HashRow). h.vuz_id) i id t.db.hashes;
    results = λ j free.
        kept (of_batch j) (result_of id t.db.batches) t.db.results
          λ r h. in_batch j r.batch_id h ∙ free;
    payloads = λ j free.
        kept (payload_in j) (payload_of id t.db.batches) t.db.payloads
          λ p h. in_batch j p.batch_id h ∙ free;
    links = λ x free.
        kept (link_to x) (link_of id t.db.hashes) t.db.links
          λ l h. of_diploma x l.diploma_hash h ∙ free;
    admins = refl;
  }

-- A removal that succeeds leaves no row of the university in any table, no result or payload of its
-- batches and no link to its diplomas, and leaves every other row as it was.
pub delete_cascade-Erases :
    (env : Surroundings) (id : String) (t t' : Tables)
    → delete_cascade env id t ≡ (ok tt, t')
    → Erases id t t'
delete_cascade-Erases env id t t' done = elim (delete_cascade-cases env id t) [
  | inl ok_erased ↦ let e : erased id t ≡ t' = ground arith in rw (← e) (erased-Erases id t)
  | inr (e, broken) ↦ absurd (ground arith)
]

-- With a database that answers, the removal of a university that is there succeeds: the order of the
-- statements leaves no row that refers to one that is deleted.
pub delete_cascade_total :
    (env : Surroundings) (id : String) (t : Tables)
    → ((q : Query) → env.down q ≡ false)
    → any (has_id id) t.accounts.universities ≡ true
    → is_ok (delete_cascade env id t).0 ≡ true
unfolding delete_cascade delete_body delete_hashes_of delete_university_of
delete_cascade_total env id t up there =
    let links = none_left (link_of id t.db.hashes) t.db.links in
    let batches = none_left (batch_of id) t.db.batches in
    let hashes = none_left (diploma_of id) t.db.hashes in
    ground (
      arith,
      up begin_tx,
      up select_university,
      up delete_links,
      up delete_batches,
      up delete_hashes,
      up delete_university,
      up commit_tx,
    )
