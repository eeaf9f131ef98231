-- ===== src/Gateway/Students/Search/Joins.antt =====
-- Which rows the joins of SearchStudents give, and what they hold.
use diasoft.Prelude.{
  ℕ, suc, String, ◌≡◌, refl, ap, ◌∙◌, sym, none, some, List, [], ◌∷◌, Bool, true, false, not, ◌&&◌,
  ltb, any, find, count, get_elem?, All, ◌==◌, Eq-string, arith, inl, inr, Bool-cases, Option-cases,
  any-find-none,
}
use diasoft.Gateway.Model.{row_ok, row_error}
use diasoft.Gateway.Store.{HashRow, ResultRow, UniversityRow, Db}
use diasoft.Gateway.Students.{Joined, newest, shows, join_diploma}
use diasoft.Gateway.Students.Search.{join_all}

-- The result was accepted with the hash.
abbrev pub accepts : String → ResultRow → Bool
accepts hash r = elim r.diploma_hash [
  | none ↦ false
  | some x ↦ x == hash && not (elim r.status [ row_ok ↦ false | row_error ↦ true ])
]

-- The diploma has an accepted result and its university.
abbrev pub is_joined : Db → HashRow → Bool
is_joined db h = any (accepts h.hash) db.results && any (λ u. u.id == h.vuz_id) db.universities

-- The payload is that of the newest accepted result, the university that of the diploma.
pub record IsJoined (db : Db) (j : Joined) : Type 0 where
  pub place : ℕ
  pub result : ResultRow
  pub stored : get_elem? db.results place ≡ some result
  pub accepted : accepts j.hash.hash result ≡ true
  pub latest :
      any (λ r. accepts j.hash.hash r && ltb result.created_at r.created_at) db.results ≡ false
  pub payload : j.qr_payload ≡ result.qr_payload
  pub university : UniversityRow
  pub known : find (λ u. u.id == j.hash.vuz_id) db.universities ≡ some university
  pub university_id : j.university_id ≡ university.id
  pub university_name : j.university_name ≡ university.name

any-find-known :
    {A : Type 0} (p : A → Bool) (xs : List A) (x : A) → find p xs ≡ some x → any p xs ≡ true
any-find-known p [] x found = absurd (ground arith)
any-find-known p (y ∷ ys) x found = ground (arith, any-find-known p ys x)

newest-none : (p : ResultRow → Bool) (rs : List ResultRow) → newest p rs ≡ none → any p rs ≡ false
unfolding newest
newest-none p [] h = refl
newest-none p (x ∷ xs) h = elim (Option-cases (newest p xs)) [
  | inl gone ↦ ground (arith, newest-none p xs gone)
  | inr (later, found) ↦ absurd (ground arith)
]

none_newer :
    (p : ResultRow → Bool) (low high : ℕ) (rs : List ResultRow)
    → ltb high low ≡ false
    → any (λ x. p x && ltb low x.created_at) rs ≡ false
    → any (λ x. p x && ltb high x.created_at) rs ≡ false
none_newer p low high [] order h = refl
none_newer p low high (x ∷ xs) order h = ground (arith, none_newer p low high xs)

none_at_all :
    (p : ResultRow → Bool) (low : ℕ) (rs : List ResultRow)
    → any p rs ≡ false
    → any (λ x. p x && ltb low x.created_at) rs ≡ false
none_at_all p low [] h = refl
none_at_all p low (x ∷ xs) h = ground (arith, none_at_all p low xs)

newest-some :
    (p : ResultRow → Bool) (rs : List ResultRow) (r : ResultRow)
    → newest p rs ≡ some r
    → (i : ℕ) × (get_elem? rs i ≡ some r)
      × (p r ≡ true)
      × (any (λ x. p x && ltb r.created_at x.created_at) rs ≡ false)
unfolding newest
newest-some p [] r h = absurd (ground arith)
newest-some p (x ∷ xs) r h = elim (Option-cases (newest p xs)) [
  | inl gone ↦
      let passes : p x ≡ true = ground arith in
      let same : x ≡ r = ground arith in
      let others = none_at_all p x.created_at xs (newest-none p xs gone) in
      let last : any (λ y. p y && ltb x.created_at y.created_at) (x ∷ xs) ≡ false = ground arith in
      (
        0,
        ap some same,
        ap p (sym same) ∙ passes,
        ap (λ z. any (λ y. p y && ltb z.created_at y.created_at) (x ∷ xs)) (sym same) ∙ last,
      )
  | inr (later, found) ↦
      let (i, there, passes, last) = newest-some p xs later found in
      elim (Bool-cases (p x && not (ltb x.created_at later.created_at))) [
        | inl first ↦
            let same : x ≡ r = ground arith in
            let order : ltb x.created_at later.created_at ≡ false = ground arith in
            let others = none_newer p later.created_at x.created_at xs order last in
            let here : p x ≡ true = ground arith in
            let none_after : any (λ y. p y && ltb x.created_at y.created_at) (x ∷ xs) ≡ false =
              ground arith in
            (
              0,
              ap some same,
              ap p (sym same) ∙ here,
              ap (λ z. any (λ y. p y && ltb z.created_at y.created_at) (x ∷ xs)) (sym same)
                  ∙ none_after,
            )
        | inr behind ↦
            let same : later ≡ r = ground arith in
            let none_after : any (λ y. p y && ltb later.created_at y.created_at) (x ∷ xs) ≡ false =
              ground arith in
            (
              suc i,
              there ∙ ap some same,
              ap p (sym same) ∙ passes,
              ap (λ z. any (λ y. p y && ltb z.created_at y.created_at) (x ∷ xs)) (sym same)
                  ∙ none_after,
            )
      ]
]

newest-any :
    (p : ResultRow → Bool) (rs : List ResultRow) (r : ResultRow)
    → newest p rs ≡ some r
    → any p rs ≡ true
unfolding newest
newest-any p [] r h = absurd (ground arith)
newest-any p (x ∷ xs) r h = elim (Option-cases (newest p xs)) [
  | inl gone ↦ ground arith
  | inr (later, found) ↦ ground (arith, newest-any p xs later found)
]

join_diploma-IsJoined :
    (db : Db) (h : HashRow) (j : Joined)
    → join_diploma h db ≡ some j
    → (j.hash ≡ h) × (is_joined db h ≡ true) × IsJoined db j
unfolding join_diploma
join_diploma-IsJoined db h j joined = elim (Option-cases (newest (shows h.hash) db.results)) [
  | inl gone ↦ absurd (ground arith)
  | inr (r, found) ↦ elim (Option-cases (find (λ u. u.id == h.vuz_id) db.universities)) [
    | inl gone ↦ absurd (ground arith)
    | inr (u, known) ↦
        let same : record {
          hash = h;
          qr_payload = r.qr_payload;
          university_id = u.id;
          university_name = u.name;
        }
            ≡ j =
          ground arith in
        let (i, there, passes, last) = newest-some (shows h.hash) db.results r found in
        let some_result = newest-any (shows h.hash) db.results r found in
        let some_university : any (λ u. u.id == h.vuz_id) db.universities ≡ true =
          ground (arith, any-find-known (λ u. u.id == h.vuz_id) db.universities u known) in
        rw (← same) (
          refl,
          ground arith,
          record {
            place = i;
            result = r;
            stored = there;
            accepted = passes;
            latest = last;
            payload = refl;
            university = u;
            known = known;
            university_id = refl;
            university_name = refl;
          },
        )
  ]
]

join_diploma-none : (db : Db) (h : HashRow) → join_diploma h db ≡ none → is_joined db h ≡ false
unfolding join_diploma
join_diploma-none db h gone = elim (Option-cases (newest (shows h.hash) db.results)) [
  | inl no_result ↦ let none_there = newest-none (shows h.hash) db.results no_result in ground arith
  | inr (r, found) ↦ elim (Option-cases (find (λ u. u.id == h.vuz_id) db.universities)) [
    | inl no_university ↦
        let none_there = any-find-none (λ u. u.id == h.vuz_id) db.universities no_university in
        ground arith
    | inr (u, known) ↦ absurd (ground arith)
  ]
]

pub count-join_all :
    (db : Db) (q : HashRow → Bool) (hs : List HashRow)
    → count (λ j. q j.hash) (join_all db hs) ≡ count (λ h. is_joined db h && q h) hs
count-join_all db q [] = refl
count-join_all db q (h ∷ hs) = elim (Option-cases (join_diploma h db)) [
  | inl gone ↦ ground (arith, count-join_all db q hs, join_diploma-none db h gone)
  | inr (j, joined) ↦
      let (same, there, parts) = join_diploma-IsJoined db h j joined in
      ground (arith, count-join_all db q hs, ap q same)
]

pub join_all-IsJoined : (db : Db) (hs : List HashRow) → All (IsJoined db) (join_all db hs)
join_all-IsJoined db [] = tt
join_all-IsJoined db (h ∷ hs) = elim (Option-cases (join_diploma h db)) [
  | inl gone ↦
      let same : join_all db (h ∷ hs) ≡ join_all db hs = ground arith in
      rw same (join_all-IsJoined db hs)
  | inr (j, joined) ↦
      let same : join_all db (h ∷ hs) ≡ j ∷ join_all db hs = ground arith in
      let (_, _, parts) = join_diploma-IsJoined db h j joined in
      rw same (parts, join_all-IsJoined db hs)
]
