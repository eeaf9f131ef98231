-- ===== src/Gateway/Handlers/Admin/Shut.antt =====
-- Who is shut out by what an administrator does.
use diasoft.Prelude.{
  String, ◌≡◌, ◌≢◌, refl, sym, ap, ◌∙◌, inl, inr, some, List, [], ◌∷◌, true, false, any, find,
  update, ◌==◌, Eq-string, arith, Option-cases,
}
use diasoft.Gateway.Http.{answered}
use diasoft.Gateway.Accounts.{University, Accounts, Surroundings, has_id, set_status, update_status}
use diasoft.Gateway.Access.{Headers, Ctx, next, Middleware, diploma_route}
use diasoft.Gateway.Access.Guards.{active_with, diploma_route-IsActive}
use diasoft.Gateway.Removal.{Tables}
use diasoft.Gateway.Removal.Erased.{delete_cascade-Erases, erased, delete_cascade-cases}
use diasoft.Gateway.Handlers.Admin.{
  UniversityAdminResponse, update_university_status, delete_university,
}

-- A request of an administrator that was answered with success: another status, or the removal.
pub data ShutsOut (env : Surroundings) (id : String) (t : Tables) : Tables → Type 0 where
  by_status :
      (status : String) (r : UniversityAdminResponse) (db : Accounts)
      → (status == "active") ≡ false
      → update_university_status env id (some status) t.accounts ≡ (answered 200 r, db)
      → ShutsOut env id t (record t { accounts = db })
  by_removal :
      (t' : Tables) (removed : String)
      → delete_university env id t ≡ (answered 200 removed, t')
      → ShutsOut env id t t'

none_active :
    (id status : String) (us : List University)
    → (status == "active") ≡ false
    → any (active_with id) (update (has_id id) (set_status status) us) ≡ false
none_active id status [] other = refl
none_active id status (u ∷ us) other = ground (arith, none_active id status us other)

none_there :
    (id : String) (us : List University)
    → any (has_id id) us ≡ false
    → any (active_with id) us ≡ false
none_there id [] gone = refl
none_there id (u ∷ us) gone = ground (arith, none_there id us)

updated :
    (env : Surroundings) (id status : String) (r : UniversityAdminResponse) (db db' : Accounts)
    → update_university_status env id (some status) db ≡ (answered 200 r, db')
    → db'.universities ≡ update (has_id id) (set_status status) db.universities
unfolding update_university_status update_status
updated env id status r db db' done = elim (Option-cases (find (has_id id) db.universities)) [
  | inl gone ↦ absurd (ground arith)
  | inr (u, found) ↦ ground arith
]

ShutsOut-inactive :
    {env : Surroundings} {id : String} {t t' : Tables}
    → ShutsOut env id t t'
    → any (active_with id) t'.accounts.universities ≡ false
unfolding delete_university
ShutsOut-inactive {env} {id} {t} (by_status status r db other done) =
    ap (any (active_with id)) (updated env id status r t.accounts db done)
    ∙ none_active id status t.accounts.universities other
ShutsOut-inactive {env} {id} {t} (by_removal t' removed done) =
    elim (delete_cascade-cases env id t) [
      | inl gone ↦
          let e : erased id t ≡ t' = ground arith in
          let erases = delete_cascade-Erases env id t (erased id t) gone in
          ap (λ (x : Tables). any (active_with id) x.accounts.universities) (sym e)
          ∙ none_there id (erased id t).accounts.universities erases.no_university
      | inr (e, broken) ↦ absurd (ground arith)
    ]

-- Once a university was given a status other than active, or was removed, by a request that was
-- answered with success, no request passes to the diploma routes in its name, by a token or by a key,
-- as long as the accounts are as this request left them and the middleware has its resolver.
pub diploma_route-ShutsOut :
    (env : Surroundings) (id : String) (t t' : Tables) (m : Middleware) (h : Headers) (ctx : Ctx)
    → ShutsOut env id t t'
    → m.checked ≡ true
    → m.accounts ≡ t'.accounts
    → diploma_route m h ≡ next ctx
    → ctx.university_id ≢ some id
diploma_route-ShutsOut env id t t' m h ctx shut checked same passes named =
    let (other, role, by, active) = diploma_route-IsActive m h checked ctx passes in
    let is_id : other ≡ id = ground arith in
    let inactive =
      ap (λ (a : Accounts). any (active_with id) a.universities) same ∙ ShutsOut-inactive shut in
    let active_id : any (active_with id) m.accounts.universities ≡ true =
      ap (λ i. any (active_with i) m.accounts.universities) (sym is_id) ∙ active in
    absurd (ground arith)
