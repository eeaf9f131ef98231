-- ===== src/Gateway/Batches/Refined.antt =====
-- The registry of diplomas as its users see it, and how the operations change it.
use diasoft.Prelude.{
  ℕ, String, ◌≡◌, refl, sym, ap, ◌∙◌, inl, inr, Option, none, some, [], ◌∷◌, ◌++◌, true, false, any,
  find, update, find-update_map, find-concat, any-find, any-find-none, find-any-false, find-holds,
  ◌==◌, Eq-string, if◌then◌else◌, arith, eq_iff, Bool-cases, Option-cases,
}
use diasoft.Gateway.Model.{active, revoked, ProcessingResult, ParsedQr}
use diasoft.Gateway.Store.{HashRow, Db, Env}
use diasoft.Gateway.Store.Tables.{is_diploma}
use diasoft.Gateway.Results.{apply_processing_result, apply_processing_result-cases, new_hash}
use diasoft.Gateway.Results.Effect.{
  refused, accepted, listed, added, apply_processing_result-Applies,
}
use diasoft.Gateway.Batches.{
  create_batch_with_records, create_batch_with_records-cases, is_hash_of, mark_revoked,
}
use diasoft.Gateway.Batches.Created.{create_batch_with_records-Creates}
use diasoft.Gateway.Batches.Lifecycle.{
  mark_diploma_revoked-cases, fail_batch-cases, marked, Step, upload, publish_fails, receive,
  revoke, Reach, here, next,
}
use diasoft.Gateway.Batches.Registry.{has_hash}

-- What is registered under each hash.
abbrev pub Registry : Type 0
Registry = String → Option HashRow

abbrev pub registry : Db → Registry
registry db hash = find (has_hash hash) db.hashes

abbrev pub with_row : HashRow → Registry → Registry
with_row row r hash = if hash == row.hash then some row else r hash

-- The row as an active one for a number that its university has not used, or the row as a revoked one.
pub data Changes (r r' : Registry) : Type 0 where
  keeps : ((hash : String) → r' hash ≡ r hash) → Changes r r'
  registers :
      (row : HashRow)
      → row.status ≡ active
      → r row.hash ≡ none
      → ((hash : String) (h : HashRow)
          → r hash ≡ some h
          → is_diploma row.vuz_id row.diploma_number h ≡ false)
      → ((hash : String) → r' hash ≡ with_row row r hash)
      → Changes r r'
  revokes :
      (now : ℕ) (h : HashRow)
      → r h.hash ≡ some h
      → ((hash : String)
          → r' hash ≡ with_row (record h { status = revoked; revoked_at = some now }) r hash)
      → Changes r r'

pub data Runs (start : Registry) : Registry → Type 0 where
  unchanged : Runs start start
  then_changes : {r r' : Registry} → Runs start r → Changes r r' → Runs start r'

keeps_hashes : (db db' : Db) → db'.hashes ≡ db.hashes → Changes (registry db) (registry db')
keeps_hashes db db' e = keeps (λ hash. ap (find (has_hash hash)) e)

registered :
    (env : Env) (r : ProcessingResult) (qr : ParsedQr) (db db' : Db)
    → find (is_diploma r.vuz_id qr.diploma_number) db.hashes ≡ none
    → any (λ o. o.hash == r.diploma_hash) db.hashes ≡ false
    → db'.hashes ≡ db.hashes ++ new_hash env r qr ∷ []
    → Changes (registry db) (registry db')
registered env r qr db db' free absent e =
    let row = new_hash env r qr in
    let unused = any-find-none (is_diploma r.vuz_id qr.diploma_number) db.hashes free in
    registers row refl (find-any-false (has_hash r.diploma_hash) db.hashes absent)
      (λ hash h found. elim (Bool-cases (is_diploma r.vuz_id qr.diploma_number h)) [
        | inr other ↦ other
        | inl same ↦
            let there =
              any-find (has_hash hash) (is_diploma r.vuz_id qr.diploma_number) db.hashes h found
                same in
            absurd (ground arith)
      ])
      (λ hash.
        let at_end = find-concat (has_hash hash) db.hashes row in
        let gone : (r.diploma_hash ≡ hash) → find (has_hash hash) db.hashes ≡ none = λ same.
          ap (λ i. find (has_hash i) db.hashes) (sym same)
          ∙ find-any-false (has_hash r.diploma_hash) db.hashes absent in
        ap (find (has_hash hash)) e ∙ elim (Bool-cases (hash == r.diploma_hash)) [
          | inl same ↦
              let eq = sym ((eq_iff hash r.diploma_hash).0 same) in
              let none_before = gone eq in ground (arith, eq_iff r.diploma_hash hash)
          | inr other ↦ elim (Option-cases (find (has_hash hash) db.hashes)) [
            | inl absent_too ↦
                ground (arith, eq_iff r.diploma_hash hash, eq_iff hash r.diploma_hash)
            | inr (h, found) ↦ ground arith
          ]
        ])

module _ (now : ℕ) (vuz_id hash : String) (db : Db) where
  abbrev updated : Db
  updated = record db { hashes = update (is_hash_of vuz_id hash) (mark_revoked now) db.hashes }

  -- A row that is not changed by the UPDATE.
  other_row :
      (x : String)
      → ((h : HashRow) → find (has_hash x) db.hashes ≡ some h → is_hash_of vuz_id hash h ≡ false)
      → registry updated x ≡ registry db x
  other_row x spared =
      let changed =
        find-update_map (has_hash x) (is_hash_of vuz_id hash) (mark_revoked now) (λ _. refl)
          db.hashes in
      elim (Option-cases (find (has_hash x) db.hashes)) [
        | inl gone ↦ ground arith
        | inr (h, found) ↦ ground (arith, spared h found)
      ]

  -- The row of another hash, or of another university.
  elsewhere :
      (x : String) (h : HashRow)
      → (x == hash) ≡ false
      → find (has_hash x) db.hashes ≡ some h
      → is_hash_of vuz_id hash h ≡ false
  elsewhere x h differs found = ground (
    arith,
    find-holds (has_hash x) db.hashes h found,
    eq_iff h.hash x,
    eq_iff h.hash hash,
    eq_iff x hash,
  )

  at_hash : (x : String) → (x == hash) ≡ true → registry db x ≡ registry db hash
  at_hash x same = ap (λ i. find (has_hash i) db.hashes) ((eq_iff x hash).0 same)

  -- Where the row under the hash is spared, every row that a search finds is.
  spared_everywhere :
      ((h : HashRow) → registry db hash ≡ some h → is_hash_of vuz_id hash h ≡ false)
      → (x : String) (h : HashRow) → registry db x ≡ some h
      → is_hash_of vuz_id hash h ≡ false
  spared_everywhere spared x h found = elim (Bool-cases (x == hash)) [
    | inl same ↦ spared h (sym (at_hash x same) ∙ found)
    | inr differs ↦ elsewhere x h differs found
  ]

  revoked_row :
      (h : HashRow)
      → registry db hash ≡ some h
      → is_hash_of vuz_id hash h ≡ true
      → (x : String)
      → registry updated x
        ≡ with_row (record h { status = revoked; revoked_at = some now }) (registry db) x
  revoked_row h found hit x =
      let own : h.hash ≡ hash =
        (eq_iff h.hash hash).0 (find-holds (has_hash hash) db.hashes h found) in
      elim (Bool-cases (x == hash)) [
        | inl same ↦
            let changed =
              find-update_map (has_hash x) (is_hash_of vuz_id hash) (mark_revoked now) (λ _. refl)
                db.hashes in
            let here_too : find (has_hash x) db.hashes ≡ some h = at_hash x same ∙ found in
            let matches : (x == h.hash) ≡ true = ap (λ t. x == t) own ∙ same in ground arith
        | inr differs ↦
            let passes : (x == h.hash) ≡ false = ap (λ t. x == t) own ∙ differs in
            other_row x (λ o found_o. elsewhere x o differs found_o) ∙ ground arith
      ]

  updated-Changes : Changes (registry db) (registry updated)
  updated-Changes = elim (Option-cases (find (has_hash hash) db.hashes)) [
    | inl gone ↦ keeps λ x. other_row x (spared_everywhere (λ o there. absurd (ground arith)) x)
    | inr (h, found) ↦ elim (Bool-cases (is_hash_of vuz_id hash h)) [
      | inr spared ↦ keeps λ x. other_row x (
          spared_everywhere
            (λ o there.
              let same : h ≡ o = ground arith in ap (is_hash_of vuz_id hash) (sym same) ∙ spared)
            x)
      | inl hit ↦
          let own : h.hash ≡ hash =
            (eq_iff h.hash hash).0 (find-holds (has_hash hash) db.hashes h found) in
          revokes now h (ap (registry db) own ∙ found) (revoked_row h found hit)
    ]
  ]

Step-Changes : {db db' : Db} → Step db db' → Changes (registry db) (registry db')
Step-Changes {db} (upload env codec vuz_id records n) =
    elim (create_batch_with_records-cases env codec vuz_id records db) [
      | inl (b, done) ↦
          let (_, c) = create_batch_with_records-Creates env codec vuz_id records b db _ done in
          keeps_hashes db (create_batch_with_records env codec vuz_id records db).1
            (ap (λ (d : Db). d.hashes) c.same)
      | inr (e, broken) ↦ rw broken (keeps_hashes db db refl)
    ]
Step-Changes {db} (publish_fails env id) = elim (fail_batch-cases env id db) [
  | inl changed ↦ rw changed (keeps_hashes db (marked env id db) refl)
  | inr same ↦ rw same (keeps_hashes db db refl)
]
Step-Changes {db} (receive env r) = elim (apply_processing_result-cases env r db) [
  | inr (e, broken) ↦ rw broken (keeps_hashes db db refl)
  | inl done ↦ elim (apply_processing_result-Applies env r db _ done) [
    | inl (old, same) ↦ rw same (keeps_hashes db db refl)
    | inr (refused text s) ↦
        keeps_hashes db (apply_processing_result env r db).1 (ap (λ (d : Db). d.hashes) s.same)
    | inr (accepted payload qr mid good (listed h found same) s) ↦
        keeps_hashes db (apply_processing_result env r db).1 (ap (λ (d : Db). d.hashes) s.same)
    | inr (accepted payload qr mid good (added free absent) s) ↦
        registered env r qr db (apply_processing_result env r db).1 free absent
          (ap (λ (d : Db). d.hashes) s.same)
  ]
]
Step-Changes {db} (revoke env vuz_id hash) = elim (mark_diploma_revoked-cases env vuz_id hash db) [
  | inr same ↦ rw same (keeps_hashes db db refl)
  | inl changed ↦ rw changed (updated-Changes env.now vuz_id hash db)
]

-- The operations implement the registry: every sequence of uploads, failed publications, received
-- results and revocations changes what is registered under the hashes by steps of three kinds alone.
-- Nothing changes; an active diploma appears under a hash that was free, for a number that its
-- university has not used; or one that is there becomes revoked and stays as it was otherwise.
pub Reach-Runs : {start db : Db} → Reach start db → Runs (registry start) (registry db)
Reach-Runs here = unchanged
Reach-Runs (next r s) = then_changes (Reach-Runs r) (Step-Changes s)
