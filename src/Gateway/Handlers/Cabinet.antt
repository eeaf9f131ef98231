-- ===== src/Gateway/Handlers/Cabinet.antt =====
-- The cabinet of a university: gateway-service/internal/service/university.go and internal/transport/
-- http/handler/university.go.
use diasoft.Prelude.{
  ℕ, ◌<◌, leb, true, false, ◌==◌, Eq-string, ◌≤◌, String, ◌≡◌, Option, none, some, List, Bool, ◌||◌,
  not, ℤ, pos, negsuc, ltb_ℤ, is_positive, is_empty, trim_space, parse_int64, if◌then◌else◌, map,
  take, length, count, ◌&&◌, IsOrdered, arith, Result-cases, Option-cases, inl, inr, refl, ap, sym,
  zero, suc, [], ◌∷◌, length-take-le, ◌∙◌,
}
use diasoft.Gateway.Store.{Db, Env, BatchRow}
use diasoft.Gateway.Model.{row_ok, row_error}
use diasoft.Gateway.Http.{Response, http_error, answered}
use diasoft.Gateway.Access.{Ctx}
use diasoft.Gateway.Accounts.{Accounts, Surroundings, find_by_id}
use diasoft.Gateway.Batches.{BatchView}
use diasoft.Gateway.Batches.Listing.{view, limit_or, list_batches}
use diasoft.Gateway.Batches.Listing.Rows.{list_batches-newest}
use diasoft.Gateway.Handlers.{respond_with, internal, as_university_reading}
use diasoft.Gateway.Handlers.Admin.{UniversityAdminResponse, university, lookup_error}

unfoldable pub profile : Surroundings → Ctx → Accounts → Response UniversityAdminResponse
profile env ctx db = as_university_reading ctx λ vuz_id.
    respond_with university (lookup_error "failed to load university profile")
      (find_by_id env vuz_id db)

-- ListBatches of the service
abbrev pub capped : ℤ → ℤ
capped limit = if not (is_positive limit) || ltb_ℤ (pos 100) limit then pos 20 else limit

-- The limit of the query, 20 where there is none.
abbrev pub limit_of : String → Option ℤ
limit_of raw =
    let text = trim_space raw in if is_empty text then some (pos 20) else parse_int64 text

unfoldable pub list_batches_route : Env → Ctx → String → Db → Response (List BatchView)
list_batches_route env ctx raw_limit db = as_university_reading ctx λ vuz_id.
    elim (limit_of raw_limit) [
      | none ↦ http_error 400 "limit must be an integer"
      | some limit ↦
          respond_with (λ bs. answered 200 bs) (internal "failed to load university batches")
            (list_batches env vuz_id (capped limit) db)
    ]

capped_le : (limit : ℤ) → limit_or 20 (capped limit) ≤ 100
capped_le (pos zero) = ground arith
capped_le (pos (suc n)) = ground arith
capped_le (negsuc n) = ground arith

length-map : {A B : Type 0} (f : A → B) (xs : List A) → length (map f xs) ≡ length xs
length-map f [] = refl
length-map f (x ∷ xs) = ap suc (length-map f xs)

-- A limit that is blank stands for 20, one from 1 to 100 for itself, and any other number for 20.
pub record Asks (raw_limit : String) (size : ℕ) : Type 0 where
  pub blank : is_empty (trim_space raw_limit) ≡ true → size ≡ 20
  pub within :
      (n : ℕ)
      → is_empty (trim_space raw_limit) ≡ false
      → parse_int64 (trim_space raw_limit) ≡ some (pos n)
      → 1 ≤ n
      → n ≤ 100
      → size ≡ n
  pub large :
      (n : ℕ)
      → is_empty (trim_space raw_limit) ≡ false
      → parse_int64 (trim_space raw_limit) ≡ some (pos n)
      → 100 < n
      → size ≡ 20
  pub zero_given :
      is_empty (trim_space raw_limit) ≡ false
      → parse_int64 (trim_space raw_limit) ≡ some (pos 0)
      → size ≡ 20
  pub negative :
      (n : ℕ)
      → is_empty (trim_space raw_limit) ≡ false
      → parse_int64 (trim_space raw_limit) ≡ some (negsuc n)
      → size ≡ 20

abbrev size_of : ℤ → ℕ
size_of limit = limit_or 20 (capped limit)

within_size : (n : ℕ) → 1 ≤ n → n ≤ 100 → size_of (pos n) ≡ n
within_size zero low high = absurd (omega (arith, low))
within_size (suc n) low high = ground arith

large_size : (n : ℕ) → 100 < n → size_of (pos n) ≡ 20
large_size zero large = absurd (omega (arith, large))
large_size (suc n) large = ground arith

limit_of-Asks :
    (raw_limit : String) (limit : ℤ)
    → limit_of raw_limit ≡ some limit
    → Asks raw_limit (size_of limit)
limit_of-Asks raw_limit limit given = record {
  blank = λ e. let same : pos 20 ≡ limit = ground arith in ap size_of (sym same);
  within = λ n full read low high.
      let same : pos n ≡ limit = ground arith in ap size_of (sym same) ∙ within_size n low high;
  large = λ n full read big.
      let same : pos n ≡ limit = ground arith in ap size_of (sym same) ∙ large_size n big;
  zero_given = λ full read. let same : pos 0 ≡ limit = ground arith in ap size_of (sym same);
  negative = λ n full read. let same : negsuc n ≡ limit = ground arith in ap size_of (sym same);
}

-- What the list of batches is, in the name of a university and for a limit that reads.
pub record Newest (ctx : Ctx) (raw_limit : String) (db : Db) (vs : List BatchView) : Type 0 where
  pub vuz_id : String
  pub named : ctx.university_id ≡ some vuz_id
  -- How many are asked for.
  pub size : ℕ
  pub asked : Asks raw_limit size
  pub batches : List BatchRow
  pub shown :
      vs
      ≡ map
          (λ b. record {
            row = b;
            failed_records =
                count
                  (λ r. r.batch_id == b.id && elim r.status [ row_ok ↦ false | row_error ↦ true ])
                  db.results;
          })
          (take size batches)
  pub few : length vs ≤ 100
  pub sorted : IsOrdered (λ a b. leb b.created_at a.created_at) batches
  pub owned :
      (p : BatchRow → Bool) → count p batches ≡ count (λ b. b.vuz_id == vuz_id && p b) db.batches

-- A list of batches that is answered is the front part of the batches of the university that asks, each
-- once, from the newest on, with the number of errors among the results of each: as many as the limit that it
-- gave, at most 100, or 20 if it gave none or one outside 1 to 100.
pub list_batches_route-Newest :
    (env : Env) (ctx : Ctx) (raw_limit : String) (db : Db) (vs : List BatchView)
    → list_batches_route env ctx raw_limit db ≡ answered 200 vs
    → Newest ctx raw_limit db vs
unfolding list_batches_route
list_batches_route-Newest env ctx raw_limit db vs done = elim (Option-cases ctx.university_id) [
  | inl missing ↦ absurd (ground arith)
  | inr (vuz_id, named) ↦ elim (Option-cases (limit_of raw_limit)) [
    | inl unread ↦ absurd (ground arith)
    | inr (limit, given) ↦ elim (Result-cases (list_batches env vuz_id (capped limit) db)) [
      | inr (e, broken) ↦ absurd (ground arith)
      | inl (found, listed) ↦
          let same : found ≡ vs = ground arith in
          let (bs, shown, sorted, owned) =
            list_batches-newest env vuz_id (capped limit) db found listed in
          let n = limit_or 20 (capped limit) in
          record {
            vuz_id = vuz_id;
            named = named;
            size = n;
            asked = limit_of-Asks raw_limit limit given;
            batches = bs;
            shown = sym same ∙ shown;
            few = rw (← same) (
                rw shown (
                  omega (
                    arith,
                    length-map (view db) (take n bs),
                    length-take-le n bs,
                    capped_le limit,
                  )));
            sorted = sorted;
            owned = owned;
          }
    ]
  ]
]
