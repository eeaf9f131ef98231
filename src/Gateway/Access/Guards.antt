-- ===== src/Gateway/Access/Guards.antt =====
-- Whom the routes let through.
use diasoft.Prelude.{
  ℕ, String, ◌≡◌, ◌⊎◌, inl, inr, some, List, [], ◌∷◌, Bool, true, ◌&&◌, ok, any, find, ◌==◌,
  Eq-string, arith, ap, eq_iff, Bool-cases, Option-cases, Result-cases, any-find, find-holds,
}
use diasoft.Gateway.Accounts.{select_university, University, ApiKey, Accounts, has_id}
use diasoft.Gateway.ApiKeys.{active_owner, owner_of, find_active_university_by_hash}
use diasoft.Gateway.Token.{AccessClaims, parse_access_token}
use diasoft.Gateway.Access.{
  Headers, Ctx, background, with_university, with_admin, Outcome, http_error, next, Middleware,
  extract_bearer_token, extract_api_key, or_subject, ensure_university_is_active, by_role,
  handed_to, by_api_key, jwt, admin, university, university_or_api_key, admin_route,
  university_route, diploma_route,
}

abbrev pub active_with : String → University → Bool
active_with id u = u.id == id && u.status == "active"

-- The university with the identifier is in the table, and active.
abbrev pub IsActive : Accounts → String → Type 0
IsActive db id = any (active_with id) db.universities ≡ true

module _ (m : Middleware) (checked : m.checked ≡ true) where
  ensured_IsActive :
      (id : String) (ctx ctx' : Ctx)
      → ensure_university_is_active m id (next ctx) ≡ next ctx'
      → (ctx' ≡ ctx) × IsActive m.accounts id
  unfolding ensure_university_is_active
  ensured_IsActive id ctx ctx' h = elim (Option-cases (find (has_id id) m.accounts.universities)) [
    | inl gone ↦ absurd (ground arith)
    | inr (u, found) ↦
        let held = find-holds (has_id id) m.accounts.universities u found in
        let active : (u.status == "active") ≡ true = ground arith in
        (
          ground arith,
          any-find (has_id id) (active_with id) m.accounts.universities u found (ground arith),
        )
  ]

owner_IsActive :
    (hash : String) (us : List University) (ks : List ApiKey) (u : University) (k : ApiKey)
    → active_owner hash us ks ≡ some (u, k)
    → any (active_with u.id) us ≡ true
unfolding active_owner
owner_IsActive hash us [] u k h = ground arith
owner_IsActive hash us (o ∷ ks) u k h =
    elim (Option-cases (find (λ v. v.id == o.vuz_id && v.status == "active") us)) [
      | inl gone ↦ ground (arith, owner_IsActive hash us ks u k)
      | inr (v, found) ↦
          let held = find-holds (λ v. v.id == o.vuz_id && v.status == "active") us v found in
          let active =
            any-find (λ v. v.id == o.vuz_id && v.status == "active") (active_with v.id) us v found
              (ground (arith, eq_iff v.id v.id)) in
          elim (Bool-cases (o.key_hash == hash && o.is_active)) [
            | inl owned ↦
                let e : owner_of v ≡ u = ground arith in
                let same : v.id ≡ u.id = ap (λ (x : University). x.id) e in rw (← same) active
            | inr other ↦ owner_IsActive hash us ks u k (ground arith)
          ]
    ]

-- The check hands on what follows it, or answers with an error.
ensured-cases :
    (m : Middleware) (id : String) (rest : Outcome)
    → (ensure_university_is_active m id rest ≡ rest)
      ⊎ ((code : ℕ) × (text : String) × (ensure_university_is_active m id rest
            ≡ http_error code text))
unfolding ensure_university_is_active
ensured-cases m id rest = elim (Bool-cases m.checked) [
  | inr unchecked ↦ inl (ground arith)
  | inl checked ↦ elim (Bool-cases (m.env.down select_university)) [
    | inl down ↦ inr (500, "failed to resolve university", ground arith)
    | inr up ↦ elim (Option-cases (find (has_id id) m.accounts.universities)) [
      | inl gone ↦ inr (401, "university not found", ground arith)
      | inr (u, found) ↦ elim (Bool-cases (u.status == "active")) [
        | inl active ↦ inl (ground arith)
        | inr inactive ↦ inr (403, "university account is not active", ground arith)
      ]
    ]
  ]
]

module _ (m : Middleware) (c : AccessClaims) (ctx : Ctx) where
  by_role-university :
      handed_to (by_role m background c) university ≡ next ctx
      → (c.role ≡ "university")
        × (ensure_university_is_active m
              (or_subject c)
              (next (with_university background (or_subject c) c.email))
            ≡ next ctx)
  unfolding by_role university
  by_role-university e = elim (Bool-cases (c.role == "admin")) [
    | inl as_admin ↦ absurd (ground arith)
    | inr other ↦ elim (Bool-cases (c.role == "university")) [
      | inr unknown ↦ absurd (ground arith)
      | inl good ↦ ((eq_iff _ _).0 good, ground arith)
    ]
  ]

  by_role-admin :
      handed_to (by_role m background c) admin ≡ next ctx
      → (c.role ≡ "admin") × (ctx ≡ with_admin background c.subject c.email)
  unfolding by_role admin
  by_role-admin e = elim (Bool-cases (c.role == "admin")) [
    | inl good ↦ ((eq_iff _ _).0 good, ground arith)
    | inr other ↦
        let as_university = next (with_university background (or_subject c) c.email) in
        elim (ensured-cases m (or_subject c) as_university) [
          | inl same ↦ absurd (ground arith)
          | inr (code, text, same) ↦ absurd (ground arith)
        ]
  ]

module _ (m : Middleware) (h : Headers) (checked : m.checked ≡ true) where
  by_api_key-IsActive :
      (ctx ctx' : Ctx)
      → by_api_key m h ctx ≡ next ctx'
      → (id : String) × (ctx'.role ≡ some "university")
        × (ctx'.university_id ≡ some id)
        × IsActive m.accounts id
  unfolding by_api_key find_active_university_by_hash
  by_api_key-IsActive ctx ctx' e =
      elim (Option-cases
        (active_owner (m.hash (extract_api_key h)) m.accounts.universities m.accounts.api_keys)) [
          | inl gone ↦ absurd (ground arith)
          | inr ((u, k), found) ↦ (
            u.id,
            ground arith,
            ground arith,
            owner_IsActive (m.hash (extract_api_key h)) m.accounts.universities m.accounts.api_keys
                u k found,
          )
        ]

  by_token_IsActive :
      (ctx ctx' : Ctx) (c : AccessClaims)
      → ensure_university_is_active m
          (or_subject c)
          (next (with_university ctx (or_subject c) c.email))
        ≡ next ctx'
      → (id : String) × (ctx'.role ≡ some "university")
        × (ctx'.university_id ≡ some id)
        × IsActive m.accounts id
  by_token_IsActive ctx ctx' c e =
      let (same, active) =
        ensured_IsActive m checked (or_subject c) (with_university ctx (or_subject c) c.email) ctx'
          e in
      (or_subject c, ap (λ (x : Ctx). x.role) same, ap (λ (x : Ctx). x.university_id) same, active)

  -- With a middleware that has its resolver of universities, a request that passes to the
  -- diploma routes, by a token or by a key, is made in the name of a university that the table
  -- holds as active.
  pub diploma_route-IsActive :
      (ctx : Ctx)
      → diploma_route m h ≡ next ctx
      → (id : String) × (ctx.role ≡ some "university")
        × (ctx.university_id ≡ some id)
        × IsActive m.accounts id
  unfolding diploma_route university_or_api_key
  diploma_route-IsActive ctx e = elim (Option-cases (extract_bearer_token h)) [
    | inl missing ↦ by_api_key-IsActive background ctx (ground arith)
    | inr (token, given) ↦ elim (Result-cases (parse_access_token m.tokens m.env.now token)) [
      | inr (bad, refused) ↦ by_api_key-IsActive background ctx (ground arith)
      | inl (c, parsed) ↦ elim (Bool-cases (c.role == "university" && c.status == "active")) [
        | inl good ↦ by_token_IsActive background ctx c (ground arith)
        | inr other ↦ by_api_key-IsActive background ctx (ground arith)
      ]
    ]
  ]

  -- With a middleware that has its resolver of universities, a request that passes to the
  -- routes of universities bears a token that reads as one of a university, is made in its
  -- name, and the table holds that university as active.
  pub university_route-IsActive :
      (ctx : Ctx)
      → university_route m h ≡ next ctx
      → (c : AccessClaims) × (token : String) × (extract_bearer_token h ≡ some token)
        × (parse_access_token m.tokens m.env.now token ≡ ok c)
        × (c.role ≡ "university")
        × (ctx ≡ with_university background (or_subject c) c.email)
        × IsActive m.accounts (or_subject c)
  unfolding university_route jwt
  university_route-IsActive ctx e = elim (Option-cases (extract_bearer_token h)) [
    | inl missing ↦ absurd (ground arith)
    | inr (token, given) ↦ elim (Result-cases (parse_access_token m.tokens m.env.now token)) [
      | inr (bad, refused) ↦ absurd (ground arith)
      | inl (c, parsed) ↦
          let (role, ensured) = by_role-university m c ctx (ground arith) in
          let (same, active) =
            ensured_IsActive m checked (or_subject c)
              (with_university background (or_subject c) c.email) ctx ensured in
          (c, token, given, parsed, role, same, active)
    ]
  ]

-- A request that passes to the routes of administrators bears a token of an administrator.
pub admin_route-IsAdmin :
    (m : Middleware) (h : Headers) (ctx : Ctx)
    → admin_route m h ≡ next ctx
    → (c : AccessClaims) × (token : String) × (extract_bearer_token h ≡ some token)
      × (parse_access_token m.tokens m.env.now token ≡ ok c)
      × (c.role ≡ "admin")
      × (ctx ≡ with_admin background c.subject c.email)
unfolding admin_route jwt
admin_route-IsAdmin m h ctx e = elim (Option-cases (extract_bearer_token h)) [
  | inl missing ↦ absurd (ground arith)
  | inr (token, given) ↦ elim (Result-cases (parse_access_token m.tokens m.env.now token)) [
    | inr (bad, refused) ↦ absurd (ground arith)
    | inl (c, parsed) ↦
        let (role, same) = by_role-admin m c ctx (ground arith) in
        (c, token, given, parsed, role, same)
  ]
]
