-- ===== src/Gateway/SigningKeys/Settled.antt =====
-- What the two statements of Upsert leave: the public key of the university, and the row of its signing
-- key.
use diasoft.Prelude.{
  String, ◌≡◌, refl, sym, ap, ◌∙◌, inl, inr, some, [], ◌∷◌, true, false, ok, any, find, blank,
  Eq-string, Eq-nat, arith, eq_iff, find-update_map, find-concat, Option-cases, Bool-cases,
  Result-cases, find-holds, find-any-true, find-any-false,
}
use diasoft.Gateway.Sealing.{Bytes}
use diasoft.Gateway.Accounts.{
  University, SigningKey, Accounts, Surroundings, has_id, update_public_key, set_public_key,
}
use diasoft.Gateway.SigningKeys.{
  Tools, parse_ed25519_public_key_pem, marshal_ed25519_public_key_pem, signing_key_of, with_key,
  replaced, fresh_key, upsert_row, same_bytes, settle_public_key,
}

-- What x509 and pem document: a public key that was written reads back.
unfoldable pub MarshalLaw : Tools → Type 0
MarshalLaw t =
    (key : Bytes) (text : String)
    → marshal_ed25519_public_key_pem t key ≡ ok text
    → parse_ed25519_public_key_pem t text ≡ ok key

pub same_bytes-eq : (xs ys : Bytes) → same_bytes xs ys ≡ true → xs ≡ ys
unfolding same_bytes
same_bytes-eq [] [] h = refl
same_bytes-eq [] (y ∷ ys) h = absurd (ground arith)
same_bytes-eq (x ∷ xs) [] h = absurd (ground arith)
same_bytes-eq (x ∷ xs) (y ∷ ys) h = ground (arith, same_bytes-eq xs ys)

-- The public key of the university after it was settled.
pub record Settles (t : Tools) (vuz_id : String) (u : University) (public : Bytes)
    (db db' : Accounts) : Type 0 where
  pub university : University
  pub found : find (has_id vuz_id) db'.universities ≡ some university
  pub public_text : String
  pub has_key : university.public_key ≡ some public_text
  pub reads : parse_ed25519_public_key_pem t public_text ≡ ok public
  pub keeps : (held : String) → u.public_key ≡ some held → blank held ≡ false → public_text ≡ held
  pub same_keys : db'.signing_keys ≡ db.signing_keys

module _ (t : Tools) (law : MarshalLaw t) (env : Surroundings) (vuz_id : String) (u : University)
    (public : Bytes) (pem : String) (db db' : Accounts)
    (written : marshal_ed25519_public_key_pem t public ≡ ok pem)
    (found : find (has_id vuz_id) db.universities ≡ some u) where
  updated :
      update_public_key env vuz_id pem db ≡ (ok tt, db')
      → ((held : String) → u.public_key ≡ some held → blank held ≡ false → pem ≡ held)
      → Settles t vuz_id u public db db'
  unfolding update_public_key MarshalLaw
  updated done keeps = record {
    university = set_public_key pem u;
    found = ground (
      arith,
      find-update_map (has_id vuz_id) (has_id vuz_id) (set_public_key pem) (λ x. refl)
          db.universities,
      find-holds (has_id vuz_id) db.universities u found,
    );
    public_text = pem;
    has_key = refl;
    reads = law public pem written;
    keeps = keeps;
    same_keys = ground arith;
  }

  pub settled :
      settle_public_key t env vuz_id u.public_key public pem db ≡ (ok tt, db')
      → Settles t vuz_id u public db db'
  unfolding settle_public_key
  settled done = elim (Option-cases u.public_key) [
    | inl without ↦ updated (ground arith) (λ held is_held nonblank. absurd (ground arith))
    | inr (held, is_held) ↦ elim (Bool-cases (blank held)) [
      | inl empty ↦ updated (ground arith) (λ other is_other nonblank. absurd (ground arith))
      | inr full ↦ elim (Result-cases (parse_ed25519_public_key_pem t held)) [
        | inr (e, broken) ↦ absurd (ground arith)
        | inl (key, read) ↦
            let same : key ≡ public = same_bytes-eq key public (ground arith) in
            let unchanged : db ≡ db' = ground arith in
            record {
              university = u;
              found = rw (← unchanged) found;
              public_text = held;
              has_key = is_held;
              reads = read ∙ ap (λ k. ok k) same;
              keeps = λ other is_other nonblank. ground arith;
              same_keys = ground arith;
            }
      ]
    ]
  ]

-- The row that was written.
pub record Written (vuz_id encrypted fingerprint : String) (key : SigningKey) (db db' : Accounts)
    : Type 0 where
  pub key_found : find (signing_key_of vuz_id) db'.signing_keys ≡ some key
  pub encrypted_as : key.encrypted_private_key ≡ encrypted
  pub fingerprint_as : key.public_key_fingerprint ≡ fingerprint
  pub same_universities : db'.universities ≡ db.universities

module _ (env : Surroundings) (vuz_id encrypted fp : String) (key : SigningKey)
    (db db' : Accounts) where
  find-with_key :
      (k : SigningKey)
      → find (signing_key_of vuz_id) (with_key env.now vuz_id encrypted fp db.signing_keys) ≡ some k
      → (k.encrypted_private_key ≡ encrypted) × (k.public_key_fingerprint ≡ fp)
  find-with_key k h = elim (Bool-cases (any (signing_key_of vuz_id) db.signing_keys)) [
    | inl had ↦
        let (old, was) = find-any-true (signing_key_of vuz_id) db.signing_keys had in
        let held = find-holds (signing_key_of vuz_id) db.signing_keys old was in
        let changed =
          find-update_map (signing_key_of vuz_id) (signing_key_of vuz_id)
            (replaced env.now encrypted fp) (λ x. refl) db.signing_keys in
        let e : replaced env.now encrypted fp old ≡ k = ground arith in
        (
          ap (λ (x : SigningKey). x.encrypted_private_key) (sym e),
          ap (λ (x : SigningKey). x.public_key_fingerprint) (sym e),
        )
    | inr new ↦
        let added =
          find-concat (signing_key_of vuz_id) db.signing_keys
            (fresh_key env.now vuz_id encrypted fp) in
        let free = find-any-false (signing_key_of vuz_id) db.signing_keys new in
        let e : fresh_key env.now vuz_id encrypted fp ≡ k = ground (arith, eq_iff vuz_id vuz_id) in
        (
          ap (λ (x : SigningKey). x.encrypted_private_key) (sym e),
          ap (λ (x : SigningKey). x.public_key_fingerprint) (sym e),
        )
  ]

  pub upsert_row_lem :
      upsert_row env vuz_id encrypted fp db ≡ (ok key, db') → Written vuz_id encrypted fp key db db'
  unfolding upsert_row
  upsert_row_lem done =
      let keys = with_key env.now vuz_id encrypted fp db.signing_keys in
      elim (Option-cases (find (signing_key_of vuz_id) keys)) [
        | inl gone ↦ absurd (ground arith)
        | inr (k, found) ↦
            let same : k ≡ key = ground arith in
            let (sealed, printed) = find-with_key k found in
            record {
              key_found = ground arith;
              encrypted_as = ap (λ (x : SigningKey). x.encrypted_private_key) (sym same) ∙ sealed;
              fingerprint_as =
                  ap (λ (x : SigningKey). x.public_key_fingerprint) (sym same) ∙ printed;
              same_universities = ground arith;
            }
      ]
