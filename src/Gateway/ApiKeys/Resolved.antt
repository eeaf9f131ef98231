-- ===== src/Gateway/ApiKeys/Resolved.antt =====
-- A key that was created resolves to its university.
use diasoft.Prelude.{
  count, count-append, none-count, String, ◌≡◌, refl, Option, some, List, [], ◌∷◌, ◌++◌, Bool, true,
  false, ◌&&◌, ok, any, find, ◌==◌, Eq-string, arith, eq_iff, Result-cases, inl, inr, ap, sym, ◌∙◌,
}
use diasoft.Gateway.Accounts.{University, ApiKey, Accounts, Surroundings, select_key}
use diasoft.Gateway.ApiKeys.{
  active_owner, owner_of, new_key, create_api_key, find_active_university_by_hash, Service, Created,
  create, resolve_active_university,
}

abbrev owns : String → University → Bool
owns vuz_id u = u.id == vuz_id && u.status == "active"

active_owner-concat :
    (hash : String) (us : List University) (u : University) (ks : List ApiKey) (k : ApiKey)
    → any (λ k. k.key_hash == hash) ks ≡ false
    → k.key_hash ≡ hash
    → k.is_active ≡ true
    → find (owns k.vuz_id) us ≡ some u
    → active_owner hash us (ks ++ k ∷ []) ≡ some (owner_of u, k)
unfolding active_owner
active_owner-concat hash us u [] k free same active found = ground (arith, eq_iff k.key_hash hash)
active_owner-concat hash us u (o ∷ ks) k free same active found =
    ground (arith, active_owner-concat hash us u ks k)

-- The row that a creation which succeeds has added.
create-adds :
    (s : Service) (env : Surroundings) (vuz_id : String) (name : Option String) (c : Created)
    (db db' : Accounts)
    → create s env vuz_id name db ≡ (ok c, db')
    → let key = new_key env vuz_id name (s.hash_api_key c.api_key) in
      (any (λ k. k.key_hash == key.key_hash) db.api_keys ≡ false)
      × (db' ≡ record db { api_keys = db.api_keys ++ key ∷ [] })
unfolding create create_api_key
create-adds s env vuz_id name c db db' done = elim (Result-cases s.generate_api_key) [
  | inr (e, broken) ↦ absurd (ground arith)
  | inl (raw, generated) ↦
      let same : raw ≡ c.api_key = ground arith in
      let free : any (λ k. k.key_hash == s.hash_api_key raw) db.api_keys ≡ false = ground arith in
      let added : db' ≡ record db {
        api_keys = db.api_keys ++ new_key env vuz_id name (s.hash_api_key raw) ∷ [];
      } =
        ground arith in
      (
        ap (λ x. any (λ k. k.key_hash == s.hash_api_key x) db.api_keys) (sym same) ∙ free,
        added
            ∙ ap
                (λ x. record db {
                  api_keys = db.api_keys ++ new_key env vuz_id name (s.hash_api_key x) ∷ [];
                })
                same,
      )
]

-- Over the accounts as the creation of a key left them, the text of the key resolves to the university,
-- whose code is left out, and to the new key, if the university is active and the query goes through; and
-- the new key, which is active and has the hash of that text, is the only one with this hash.
pub resolve_active_university-create :
    (s : Service) (env env' : Surroundings) (vuz_id : String) (name : Option String) (c : Created)
    (db db' : Accounts) (u : University)
    → create s env vuz_id name db ≡ (ok c, db')
    → find (owns vuz_id) db.universities ≡ some u
    → env'.down select_key ≡ false
    → (key : ApiKey) × (resolve_active_university s env' c.api_key db'
        ≡ ok (record u { vuz_code = "" }, key))
      × (key.key_hash ≡ s.hash_api_key c.api_key)
      × (key.vuz_id ≡ vuz_id)
      × (key.is_active ≡ true)
      × (db'.api_keys ≡ db.api_keys ++ key ∷ [])
      × (count (λ k. k.key_hash == s.hash_api_key c.api_key) db'.api_keys ≡ 1)
unfolding resolve_active_university find_active_university_by_hash
resolve_active_university-create s env env' vuz_id name c db db' u done active up =
    let (free, e) = create-adds s env vuz_id name c db db' done in
    let hash = s.hash_api_key c.api_key in
    let key = new_key env vuz_id name hash in
    let holds_hash = λ (k : ApiKey). k.key_hash == hash in
    (
      key,
      rw e (
          ground (
            arith,
            active_owner-concat hash db.universities u db.api_keys key free refl refl active,
          )),
      refl,
      refl,
      refl,
      ap (λ (a : Accounts). a.api_keys) e,
      ap (λ (a : Accounts). count holds_hash a.api_keys) e
          ∙ ground (
            arith,
            count-append holds_hash db.api_keys (key ∷ []),
            none-count holds_hash db.api_keys free,
            eq_iff hash hash,
          ),
    )
