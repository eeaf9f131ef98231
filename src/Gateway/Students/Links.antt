-- ===== src/Gateway/Students/Links.antt =====
-- A share link from its creation on.
pub mod Again
use diasoft.Prelude.{
  ℕ, ◌+◌, ◌*◌, ◌≤◌, ◌<◌, String, ◌≡◌, refl, ◌⊎◌, inl, inr, some, List, [], ◌∷◌, ◌++◌, true, false,
  ok, err, is_ok, ℤ, pos, is_positive, add_time, positive_or, any, find, ◌==◌, Eq-string, arith, ap,
  eq_iff, Result-cases, find-concat, find-holds, update-concat, Option-cases, ◌∙◌, find-any-false,
  any-concat,
}
use diasoft.Gateway.Model.{Error, unique_violation, invalid_share_token}
use diasoft.Gateway.Store.{
  Stmt, LinkRow, Db, Env, select_link, insert_link, update_link, select_student,
}
use diasoft.Gateway.Token.{
  Jwt, second, numeric_date, share_claims, issue_share_token, parse_share_token,
}
use diasoft.Gateway.Students.{
  Joined, join_student, Student, Service, ShareLink, SharedDiploma, chosen_ttl, has_token, used,
  find_student_by_hash, create_share_link, resolve_share_link,
}

-- What golang-jwt documents: a token that was signed with the secret reads back as its claims until
-- the second in which it expires, and is refused from then on.
pub record JwtLaws {C : Type 0} (jwt : Jwt C) (expires_at : C → ℕ) : Type 0 where
  pub accepts :
      (secret : String) (c : C) (token : String) (now : ℕ)
      → jwt.sign secret c ≡ ok token
      → now < expires_at c * second
      → jwt.parse secret now token ≡ ok c
  pub refuses :
      (secret : String) (c : C) (token : String) (now : ℕ)
      → jwt.sign secret c ≡ ok token
      → expires_at c * second ≤ now
      → is_ok (jwt.parse secret now token) ≡ false

abbrev pub IsUp : Env → Type 0
IsUp env = (s : Stmt) → env.down s ≡ false

-- The end of a link that is created now.
abbrev pub ends_at : Service → Env → ℤ → ℕ
ends_at s env ttl = add_time env.now (positive_or (chosen_ttl s ttl) s.tokens.share_ttl)

abbrev link_row : Env → String → ShareLink → LinkRow
link_row env hash link = record {
  id = env.new_id;
  diploma_hash = hash;
  token = link.token;
  expires_at = link.expires_at;
  used_count = 0;
  created_at = env.now;
}

record Creates (s : Service) (env : Env) (hash : String) (ttl : ℤ) (link : ShareLink) (db db' : Db)
    : Type 0 where
  student : Student
  found : find_student_by_hash env hash db ≡ (ok student, db)
  expires : link.expires_at ≡ ends_at s env ttl
  signed :
      s.tokens.share_jwt.sign s.tokens.share_secret (share_claims env.now (ends_at s env ttl) hash)
      ≡ ok link.token
  fresh : any (has_token link.token) db.links ≡ false
  same : db' ≡ record db { links = db.links ++ link_row env hash link ∷ [] }

find_student-cases :
    (env : Env) (hash : String) (db : Db)
    → ((st : Student) × (find_student_by_hash env hash db ≡ (ok st, db)))
      ⊎ ((e : Error) × (find_student_by_hash env hash db ≡ (err e, db)))
unfolding find_student_by_hash
find_student-cases env hash db = elim (Result-cases (find_student_by_hash env hash db).0) [
  | inl (st, done) ↦ inl (st, ground arith)
  | inr (e, broken) ↦ inr (e, ground arith)
]

module _ (s : Service) (env : Env) (hash : String) (ttl : ℤ) (link : ShareLink) (db db' : Db) where
  create_share_link-Creates :
      create_share_link s env hash ttl db ≡ (ok link, db') → Creates s env hash ttl link db db'
  unfolding create_share_link issue_share_token
  create_share_link-Creates h = elim (find_student-cases env hash db) [
    | inr (e, broken) ↦ absurd (ground arith)
    | inl (st, found) ↦ record {
      student = st;
      found = found;
      expires = ground arith;
      signed = ground arith;
      fresh = ground arith;
      same = ground arith;
    }
  ]

pub create_share_link_ends :
    (s : Service) (env : Env) (hash : String) (ttl : ℤ) (link : ShareLink) (db db' : Db)
    → create_share_link s env hash ttl db ≡ (ok link, db')
    → link.expires_at ≡ ends_at s env ttl
create_share_link_ends s env hash ttl link db db' h =
    (create_share_link-Creates s env hash ttl link db db' h).expires

join_student-hash :
    (hash : String) (db : Db) (j : Joined) → join_student hash db ≡ some j → j.hash.hash ≡ hash
unfolding join_student
join_student-hash hash db j h = elim (Option-cases (find (λ h. h.hash == hash) db.hashes)) [
  | inl gone ↦ absurd (ground arith)
  | inr (row, found) ↦
      ground (arith, find-holds (λ h. h.hash == hash) db.hashes row found, eq_iff row.hash hash)
]

module _ (env env' : Env) (hash : String) (db : Db) (links : List LinkRow) (st : Student) where
  find_student_again :
      find_student_by_hash env hash db ≡ (ok st, db)
      → IsUp env'
      → env'.decoder ≡ env.decoder
      → find_student_by_hash env' hash (record db { links = links })
        ≡ (ok st, record db { links = links })
  unfolding find_student_by_hash join_student
  find_student_again found up same_decoder = ground (arith, up select_student)

  find_student-diploma_hash :
      find_student_by_hash env hash db ≡ (ok st, db) → st.diploma_hash ≡ hash
  unfolding find_student_by_hash
  find_student-diploma_hash found = elim (Option-cases (join_student hash db)) [
    | inl gone ↦ absurd (ground arith)
    | inr (j, joined) ↦ ground (arith, join_student-hash hash db j joined)
  ]

module _ (s : Service) (env env' : Env) (hash : String) (ttl : ℤ) (link : ShareLink) (db db' : Db)
    (created : create_share_link s env hash ttl db ≡ (ok link, db'))
    (laws : JwtLaws s.tokens.share_jwt (λ c. c.expires_at)) where
  -- If the tokens keep the laws of golang-jwt, a link that was created is refused as invalid
  -- from the second of its end on, whatever the tables hold.
  pub resolve_share_link_expired :
      (later : Db)
      → numeric_date link.expires_at * second ≤ env'.now
      → resolve_share_link s env' link.token later ≡ (err invalid_share_token, later)
  unfolding resolve_share_link parse_share_token
  resolve_share_link_expired later late =
      let c = create_share_link-Creates s env hash ttl link db db' created in
      let claims = share_claims env.now (ends_at s env ttl) hash in
      ground (
        arith,
        laws.refuses s.tokens.share_secret claims link.token env'.now c.signed,
        ap numeric_date c.expires,
      )

  resolve_created :
      (c : Creates s env hash ttl link db db')
      → IsUp env'
      → env'.decoder ≡ env.decoder
      → env'.now < numeric_date link.expires_at * second
      → resolve_share_link s env' link.token
          (record db { links = db.links ++ link_row env hash link ∷ [] })
        ≡ (
          ok (record { student = c.student; expires_at = link.expires_at }),
          record db { links = db.links ++ used (link_row env hash link) ∷ [] },
        )
  unfolding resolve_share_link parse_share_token
  resolve_created c up same_decoder early =
      let row = link_row env hash link in
      ground (
        arith,
        laws.accepts s.tokens.share_secret (share_claims env.now (ends_at s env ttl) hash)
            link.token env'.now c.signed,
        ap numeric_date c.expires,
        up select_link,
        up update_link,
        find-concat (has_token link.token) db.links row,
        find-any-false (has_token link.token) db.links c.fresh,
        eq_iff link.token link.token,
        eq_iff hash hash,
        find_student_again env env' hash db (db.links ++ row ∷ []) c.student c.found up
            same_decoder,
        update-concat (has_token link.token) used db.links row c.fresh,
      )

  -- If the tokens keep the laws of golang-jwt and the database answers, a link that was created
  -- resolves, before the second of its end, with the same decoder and over the tables as the creation
  -- left them, to the diploma with its hash and the end of the link; its row, which has no use at
  -- first, then has one, and nothing else is changed.
  pub resolve-create :
      IsUp env'
      → env'.decoder ≡ env.decoder
      → env'.now < numeric_date link.expires_at * second
      → (shared : SharedDiploma) × (resolve_share_link s env' link.token db' ≡ (
        ok shared,
        record db { links = db.links ++ record (link_row env hash link) { used_count = 1 } ∷ [] },
      ))
        × (db' ≡ record db { links = db.links ++ link_row env hash link ∷ [] })
        × (shared.student.diploma_hash ≡ hash)
        × (shared.expires_at ≡ link.expires_at)
  resolve-create up same_decoder early =
      let c = create_share_link-Creates s env hash ttl link db db' created in
      (
        record { student = c.student; expires_at = link.expires_at },
        ap (resolve_share_link s env' link.token) c.same ∙ resolve_created c up same_decoder early,
        c.same,
        find_student-diploma_hash env env' hash db [] c.student c.found,
        refl,
      )
