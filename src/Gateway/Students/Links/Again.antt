-- ===== src/Gateway/Students/Links/Again.antt =====
-- A share link that is created twice.
use diasoft.Prelude.{
  ℕ, ◌+◌, ◌*◌, ◌<◌, String, ◌≡◌, [], ◌∷◌, ◌++◌, true, ok, err, ℤ, pos, is_positive, Eq-string,
  arith, ap, eq_iff, ◌∙◌, any-concat,
}
use diasoft.Gateway.Model.{unique_violation}
use diasoft.Gateway.Store.{Db, Env, insert_link}
use diasoft.Gateway.Token.{second, numeric_date, share_claims, issue_share_token}
use diasoft.Gateway.Students.{Service, ShareLink, has_token, create_share_link}
use diasoft.Gateway.Students.Links.{
  link_row, ends_at, Creates, create_share_link-Creates, find_student_again, IsUp,
}

module _ (s : Service) (env env' : Env) (hash : String) (ttl : ℤ) (link : ShareLink) (db db' : Db)
    (created : create_share_link s env hash ttl db ≡ (ok link, db')) where
  same_end :
      (seconds : ℕ)
      → ttl ≡ pos (seconds * second)
      → 0 < seconds
      → numeric_date env'.now ≡ numeric_date env.now
      → share_claims env'.now (ends_at s env' ttl) hash
        ≡ share_claims env.now (ends_at s env ttl) hash
  same_end seconds whole positive same_second =
      let positive_ttl : is_positive ttl ≡ true = ground arith in
      let end' : ends_at s env' ttl ≡ env'.now + seconds * second = ground arith in
      let end : ends_at s env ttl ≡ env.now + seconds * second = ground arith in
      let same : numeric_date (ends_at s env' ttl) ≡ numeric_date (ends_at s env ttl) =
        rw (end', end) (omega arith) in
      λ i. record {
        diploma_hash = hash;
        kind = "share_link";
        subject = hash;
        issued_at = same_second i;
        expires_at = same i;
      }

  create_again :
      (c : Creates s env hash ttl link db db')
      → IsUp env'
      → env'.decoder ≡ env.decoder
      → s.tokens.share_jwt.sign s.tokens.share_secret
          (share_claims env'.now (ends_at s env' ttl) hash)
        ≡ ok link.token
      → (d : Db) → d ≡ record db { links = db.links ++ link_row env hash link ∷ [] }
      → create_share_link s env' hash ttl d ≡ (err unique_violation, d)
  unfolding create_share_link issue_share_token
  create_again c up same_decoder signed d same =
      let row = link_row env hash link in
      ground (
        arith,
        up insert_link,
        any-concat (has_token link.token) db.links row,
        eq_iff link.token link.token,
        find_student_again env env' hash db (db.links ++ row ∷ []) c.student c.found up
            same_decoder,
      )

  -- After a link was created for a diploma with a positive number of whole seconds, a second
  -- one for the same diploma and duration, in the same second and with a database that answers
  -- and the same decoder, fails with a violation of the uniqueness of tokens.
  pub create_share_link_twice :
      (seconds : ℕ)
      → ttl ≡ pos (seconds * second)
      → 0 < seconds
      → IsUp env'
      → env'.decoder ≡ env.decoder
      → numeric_date env'.now ≡ numeric_date env.now
      → create_share_link s env' hash ttl db' ≡ (err unique_violation, db')
  create_share_link_twice seconds whole positive up same_decoder same_second =
      let c = create_share_link-Creates s env hash ttl link db db' created in
      create_again c up same_decoder
        (ap (s.tokens.share_jwt.sign s.tokens.share_secret)
            (same_end seconds whole positive same_second)
          ∙ c.signed)
        db' c.same
