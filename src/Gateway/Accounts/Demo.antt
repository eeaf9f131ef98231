-- ===== src/Gateway/Accounts/Demo.antt =====
-- UpsertDemo of university_repository.go: the university that the configuration names.
use diasoft.Prelude.{
  any-count, String, ◌≡◌, refl, ◌⊎◌, ap, ◌∙◌, inl, inr, Option, none, some, List, [], ◌∷◌, ◌++◌,
  Bool, true, false, not, ◌&&◌, ◌||◌, Result, ok, err, any, find, update, ltb, char_count, ◌==◌,
  Eq-string, if◌then◌else◌, arith, eq_iff, Option-cases, Bool-cases, find-update_map, find-concat,
  find-any-false, count, ◌≤◌,
}
use diasoft.Gateway.Model.{Error, driver, unique_violation, rejected}
use diasoft.Gateway.Accounts.{
  University, Accounts, Registration, Surroundings, Query, Call, has_id, has_email, new_university,
  clashes, too_long, is_status, find_by_email, begin_tx, commit_tx, select_university,
  insert_university, update_university,
}

abbrev has_code : String → University → Bool
has_code code u = u.vuz_code == code

-- WHERE email = $1 OR vuz_code = $2, the one with the address first.
abbrev existing : Registration → List University → Option University
existing r us = elim (find (has_email r.email) us) [
  | some u ↦ some u
  | none ↦ find (has_code r.vuz_code) us
]

-- The columns that are set.
abbrev pub set_from : Registration → String → String → University → University
set_from r password_hash status u = record u {
  name = r.name;
  vuz_code = r.vuz_code;
  inn = r.inn;
  ogrn = r.ogrn;
  email = r.email;
  password_hash = password_hash;
  status = status;
}

abbrev pub demo_university : Surroundings → Registration → String → String → University
demo_university env r password_hash status = record (new_university env r password_hash) {
  status = status;
}

-- The UNIQUE constraints against the rows other than the one with the identifier.
abbrev clashes_with : Registration → String → University → Bool
clashes_with r id u =
    not (u.id == id)
    && (u.vuz_code == r.vuz_code || u.inn == r.inn || u.ogrn == r.ogrn || u.email == r.email)

abbrev is_refused : Registration → String → String → Bool
is_refused r password_hash status =
    too_long r || ltb 255 (char_count password_hash) || not (is_status status)

abbrev Steps : Type 0 → Type 0
Steps A = Accounts → Result Error (A × Accounts)

-- A statement, unless the driver fails.
abbrev run : {A : Type 0} → Surroundings → Query → Steps A → Steps A
run env q m db = elim (env.down q) [ true ↦ err driver | false ↦ m db ]

unfoldable pub insert_demo : Surroundings → Registration → String → String → Steps University
insert_demo env r password_hash status db =
    if is_refused r password_hash status
    then err rejected
    else if any (clashes r) db.universities || any (has_id env.new_id) db.universities
    then err unique_violation
    else ok (
      demo_university env r password_hash status,
      record db {
        universities = db.universities ++ demo_university env r password_hash status ∷ [];
      },
    )

update_demo : Registration → String → String → University → Steps University
update_demo r password_hash status u db =
    if is_refused r password_hash status
    then err rejected
    else if any (clashes_with r u.id) db.universities
    then err unique_violation
    else ok (
      set_from r password_hash status u,
      record db {
        universities = update (has_id u.id) (set_from r password_hash status) db.universities;
      },
    )

abbrev write_demo :
    Surroundings → Registration → String → String → Option University → Steps University
write_demo env r password_hash status none =
    run env insert_university (insert_demo env r password_hash status)
write_demo env r password_hash status (some u) =
    run env update_university (update_demo r password_hash status u)

unfoldable pub demo_body : Surroundings → Registration → String → String → Steps University
unfolding insert_demo update_demo
demo_body env r password_hash status = run env begin_tx (
    run env select_university λ db.
      elim (write_demo env r password_hash status (existing r db.universities) db) [
        | err e ↦ err e
        | ok (u, db') ↦ run env commit_tx (λ d. ok (u, d)) db'
      ])

unfoldable pub upsert_demo : Surroundings → Registration → String → String → Call University
unfolding demo_body
upsert_demo env r password_hash status db = elim (demo_body env r password_hash status db) [
  | ok (u, db') ↦ (ok u, db')
  | err e ↦ (err e, db)
]

-- The identifiers of the universities are a key.
unfoldable pub IsKeyed : List University → Type 0
IsKeyed us = (i : String) → count (has_id i) us ≤ 1

find-is_first :
    (p : University → Bool) (us : List University) (u : University)
    → IsKeyed us
    → find p us ≡ some u
    → find (has_id u.id) us ≡ some u
unfolding IsKeyed
find-is_first p [] u keyed h = absurd (ground arith)
find-is_first p (v ∷ us) u keyed h = elim (Bool-cases (p v)) [
  | inl now ↦
      let same : v ≡ u = ground arith in
      let e : v.id ≡ u.id = ap (λ (x : University). x.id) same in ground (arith, eq_iff v.id u.id)
  | inr later ↦
      let found : find p us ≡ some u = ground arith in
      let rest = find-is_first p us u (λ i. omega (arith, keyed i)) found in
      ground (arith, keyed u.id, any-count (has_id u.id) us, find-any-false (has_id u.id) us)
]

module _ (r : Registration) (password_hash status id : String) where
  find_email-update :
      (us : List University)
      → any (clashes_with r id) us ≡ false
      → find (has_email r.email) (update (has_id id) (set_from r password_hash status) us)
        ≡ find (has_id id) (update (has_id id) (set_from r password_hash status) us)
  find_email-update [] h = refl
  find_email-update (u ∷ us) h =
      ground (arith, eq_iff r.email r.email, eq_iff u.id id, find_email-update us)

-- The update or the insert that a success has made.
data Demo (r : Registration) (password_hash status : String) (env : Surroundings) (u : University)
    (db db' : Accounts) : Type 0 where
  renewed :
      (old : University)
      → ((find (has_email r.email) db.universities ≡ some old)
          ⊎ (find (has_code r.vuz_code) db.universities ≡ some old))
      → any (clashes_with r old.id) db.universities ≡ false
      → u ≡ set_from r password_hash status old
      → db'.universities ≡ update (has_id old.id) (set_from r password_hash status) db.universities
      → Demo r password_hash status env u db db'
  registered :
      any (clashes r) db.universities ≡ false
      → u ≡ demo_university env r password_hash status
      → db'.universities ≡ db.universities ++ u ∷ []
      → Demo r password_hash status env u db db'

upsert_demo-Demo :
    (env : Surroundings) (r : Registration) (password_hash status : String) (u : University)
    (db db' : Accounts)
    → upsert_demo env r password_hash status db ≡ (ok u, db')
    → Demo r password_hash status env u db db'
unfolding upsert_demo
upsert_demo-Demo env r password_hash status u db db' done =
    elim (Option-cases (find (has_email r.email) db.universities)) [
      | inr (old, known) ↦ renewed old (inl known) (ground arith) (ground arith) (ground arith)
      | inl unknown ↦ elim (Option-cases (find (has_code r.vuz_code) db.universities)) [
        | inr (old, coded) ↦ renewed old (inr coded) (ground arith) (ground arith) (ground arith)
        | inl none_there ↦ registered (ground arith) (ground arith) (ground arith)
      ]
    ]

none_with_email :
    (r : Registration) (us : List University)
    → any (clashes r) us ≡ false
    → find (has_email r.email) us ≡ none
none_with_email r [] h = refl
none_with_email r (u ∷ us) h = ground (arith, none_with_email r us)

-- The university that the configuration names, once it is stored, is the one that its address finds, with the
-- given status and password; it had that address or that code before, or is new. The identifiers are a key.
pub upsert_demo-found :
    (env env' : Surroundings) (r : Registration) (password_hash status : String) (u : University)
    (db db' : Accounts)
    → IsKeyed db.universities
    → upsert_demo env r password_hash status db ≡ (ok u, db')
    → env'.down select_university ≡ false
    → (find_by_email env' r.email db' ≡ ok u)
      × (u.status ≡ status)
      × (u.password_hash ≡ password_hash)
unfolding find_by_email
upsert_demo-found env env' r password_hash status u db db' keyed done up =
    elim (upsert_demo-Demo env r password_hash status u db db' done) [
      | renewed old known free same written ↦
          let at_id : find (has_id old.id) db.universities ≡ some old = elim known [
            | inl by_email ↦ find-is_first (has_email r.email) db.universities old keyed by_email
            | inr by_code ↦ find-is_first (has_code r.vuz_code) db.universities old keyed by_code
          ] in
          let set = set_from r password_hash status in
          let moved = find_email-update r password_hash status old.id db.universities free in
          let seen =
            find-update_map (has_id old.id) (has_id old.id) set (λ x. refl) db.universities in
          let found : find (has_email r.email) db'.universities ≡ some u =
            ap (find (has_email r.email)) written ∙ moved ∙ ground (arith, eq_iff old.id old.id) in
          (
            ground arith,
            ap (λ (x : University). x.status) same,
            ap (λ (x : University). x.password_hash) same,
          )
      | registered free same written ↦
          let added = find-concat (has_email r.email) db.universities u in
          let email : u.email ≡ r.email = ap (λ (x : University). x.email) same in
          let found : find (has_email r.email) db'.universities ≡ some u =
            ap (find (has_email r.email)) written
            ∙ ground (arith, none_with_email r db.universities free, eq_iff u.email r.email) in
          (
            ground arith,
            ap (λ (x : University). x.status) same,
            ap (λ (x : University). x.password_hash) same,
          )
    ]
