-- ===== src/Gateway/SigningKeys/Agreed.antt =====
-- What holds of the keys of a university after it has given its signing key.
use diasoft.Prelude.{
  String, ◌≡◌, sym, ap, ◌∙◌, inl, inr, some, false, ok, find, blank, Eq-string, Eq-nat, arith,
  Option-cases, Result-cases,
}
use diasoft.Gateway.Sealing.{Bytes}
use diasoft.Gateway.Accounts.{University, SigningKey, Accounts, Surroundings, has_id, find_by_id}
use diasoft.Gateway.SigningKeys.{
  Service, KeyStatus, parse_ed25519_private_key_pem, parse_ed25519_public_key_pem,
  marshal_ed25519_public_key_pem, fingerprint_ed25519_public_key, signing_key_of, upsert_row,
  settle_public_key, upsert, to_signing_key_status_response,
}
use diasoft.Gateway.SigningKeys.Settled.{MarshalLaw, settled, upsert_row_lem}

-- The university has the public key of the private key that was given, and the row of its signing key holds
-- that private key, sealed, with the fingerprint of the public key.
pub record Agrees (s : Service) (vuz_id private_key_pem : String) (db db' : Accounts)
    (r : KeyStatus) : Type 0 where
  pub private : Bytes
  pub parsed : parse_ed25519_private_key_pem s.tools private_key_pem ≡ ok private
  pub university : University
  pub found : find (has_id vuz_id) db'.universities ≡ some university
  pub public_text : String
  pub has_key : university.public_key ≡ some public_text
  pub reads : parse_ed25519_public_key_pem s.tools public_text ≡ ok (s.tools.public_of private)
  pub keeps :
      (u : University) (held : String)
      → find (has_id vuz_id) db.universities ≡ some u
      → u.public_key ≡ some held
      → blank held ≡ false
      → public_text ≡ held
  pub key : SigningKey
  pub key_found : find (signing_key_of vuz_id) db'.signing_keys ≡ some key
  pub sealed : s.seal private_key_pem ≡ ok key.encrypted_private_key
  pub fingerprint :
      key.public_key_fingerprint
      ≡ fingerprint_ed25519_public_key s.tools (s.tools.public_of private)
  pub answer : r ≡ to_signing_key_status_response key

-- The calls that a success has made, in their order.
record Calls (s : Service) (env : Surroundings) (vuz_id pem : String) (db db' : Accounts)
    (r : KeyStatus) : Type 0 where
  private : Bytes
  parsed : parse_ed25519_private_key_pem s.tools pem ≡ ok private
  public_pem : String
  written : marshal_ed25519_public_key_pem s.tools (s.tools.public_of private) ≡ ok public_pem
  university : University
  found : find (has_id vuz_id) db.universities ≡ some university
  mid : Accounts
  settles :
      settle_public_key s.tools env vuz_id university.public_key
        (s.tools.public_of private)
        public_pem
        db
      ≡ (ok tt, mid)
  encrypted : String
  sealed : s.seal pem ≡ ok encrypted
  key : SigningKey
  stored :
      upsert_row env vuz_id encrypted
        (fingerprint_ed25519_public_key s.tools (s.tools.public_of private))
        mid
      ≡ (ok key, db')
  answer : r ≡ to_signing_key_status_response key

upsert-Calls :
    (s : Service) (env : Surroundings) (vuz_id pem : String) (db db' : Accounts) (r : KeyStatus)
    → upsert s env vuz_id pem db ≡ (ok r, db')
    → Calls s env vuz_id pem db db' r
unfolding upsert find_by_id
upsert-Calls s env vuz_id pem db db' r done =
    elim (Result-cases (parse_ed25519_private_key_pem s.tools pem)) [
      | inr (e, broken) ↦ absurd (ground arith)
      | inl (private, parsed) ↦
          let public = s.tools.public_of private in
          let fp = fingerprint_ed25519_public_key s.tools public in
          elim (Result-cases (marshal_ed25519_public_key_pem s.tools public)) [
            | inr (e, broken) ↦ absurd (ground arith)
            | inl (public_pem, written) ↦
                elim (Option-cases (find (has_id vuz_id) db.universities)) [
                  | inl gone ↦ absurd (ground arith)
                  | inr (u, found) ↦
                      let settling =
                        settle_public_key s.tools env vuz_id u.public_key public public_pem db in
                      elim (Result-cases settling.0) [
                        | inr (e, broken) ↦ absurd (ground arith)
                        | inl (_, settles) ↦ elim (Result-cases (s.seal pem)) [
                          | inr (e, broken) ↦ absurd (ground arith)
                          | inl (encrypted, sealed) ↦
                              elim (Result-cases
                                (upsert_row env vuz_id encrypted fp settling.1).0) [
                                  | inr (e, broken) ↦ absurd (ground arith)
                                  | inl (key, stored) ↦ record {
                                    private = private;
                                    parsed = parsed;
                                    public_pem = public_pem;
                                    written = written;
                                    university = u;
                                    found = found;
                                    mid = settling.1;
                                    settles = ground arith;
                                    encrypted = encrypted;
                                    sealed = sealed;
                                    key = key;
                                    stored = ground arith;
                                    answer = ground arith;
                                  }
                                ]
                        ]
                      ]
                ]
          ]
    ]

-- If x509 reads back the public keys that it wrote, then after a signing key was accepted the
-- university has a public key that reads as the one of the private key, which is the key it had if it
-- had one; and the row of its signing key holds the private key as it was sealed, with that public key's
-- fingerprint, which is the answer.
pub upsert-Agrees :
    (s : Service) (env : Surroundings) (vuz_id private_key_pem : String) (db db' : Accounts)
    (r : KeyStatus)
    → MarshalLaw s.tools
    → upsert s env vuz_id private_key_pem db ≡ (ok r, db')
    → Agrees s vuz_id private_key_pem db db' r
upsert-Agrees s env vuz_id private_key_pem db db' r law done =
    let c = upsert-Calls s env vuz_id private_key_pem db db' r done in
    let public = s.tools.public_of c.private in
    let fp = fingerprint_ed25519_public_key s.tools public in
    let u =
      settled s.tools law env vuz_id c.university public c.public_pem db c.mid c.written c.found
        c.settles in
    let w = upsert_row_lem env vuz_id c.encrypted fp c.key c.mid db' c.stored in
    record {
      private = c.private;
      parsed = c.parsed;
      university = u.university;
      found = ap (find (has_id vuz_id)) w.same_universities ∙ u.found;
      public_text = u.public_text;
      has_key = u.has_key;
      reads = u.reads;
      keeps = λ v held there is_held nonblank.
          let same : v ≡ c.university = ground (arith, c.found) in
          u.keeps held (ap (λ (x : University). x.public_key) (sym same) ∙ is_held) nonblank;
      key = c.key;
      key_found = w.key_found;
      sealed = c.sealed ∙ ap (λ t. ok t) (sym w.encrypted_as);
      fingerprint = w.fingerprint_as;
      answer = c.answer;
    }
