-- ===== src/Gateway/Removal/Consistent.antt =====
-- The counters and the status of the batches after the removal of a university.
use diasoft.Prelude.{
  any-count, String, ◌≡◌, refl, inl, inr, none, some, Bool, true, false, ◌&&◌, List, [], ◌∷◌, any,
  find, count, ◌==◌, Eq-string, if◌then◌else◌, arith, Option-cases, Bool-cases, sym, ◌∙◌,
}
use diasoft.Gateway.Store.{BatchRow, ResultRow}
use diasoft.Gateway.Store.Tables.{has_id, of_batch, is_error_of, IsKeyed}
use diasoft.Gateway.Results.Invariant.{BatchFits, IsConsistent}
use diasoft.Gateway.Accounts.{Surroundings}
use diasoft.Gateway.Removal.{Tables, batch_of, result_of, except, delete_cascade}
use diasoft.Gateway.Removal.Erased.{has_batch, erased, in_batch, delete_cascade-cases}

module _ {A : Type 0} where
  find-none-except : (p q : A → Bool) (xs : List A) → any p xs ≡ false → find p (except q xs) ≡ none
  find-none-except p q [] h = refl
  find-none-except p q (x ∷ xs) h = ground (arith, find-none-except p q xs)

  count-except_gone :
      (p q : A → Bool) (xs : List A)
      → ((x : A) → p x ≡ true → q x ≡ true)
      → count p (except q xs) ≡ 0
  count-except_gone p q [] h = refl
  count-except_gone p q (x ∷ xs) h = ground (arith, h x, count-except_gone p q xs h)

  count-except_kept :
      (p q : A → Bool) (xs : List A)
      → ((x : A) → p x ≡ true → q x ≡ false)
      → count p (except q xs) ≡ count p xs
  count-except_kept p q [] h = refl
  count-except_kept p q (x ∷ xs) h = ground (arith, h x, count-except_kept p q xs h)

tail-IsKeyed : (b : BatchRow) (bs : List BatchRow) → IsKeyed (b ∷ bs) → IsKeyed bs
unfolding IsKeyed
tail-IsKeyed b bs k j = ground (arith, k j)

head_alone :
    (j : String) (b : BatchRow) (bs : List BatchRow)
    → IsKeyed (b ∷ bs)
    → (b.id == j) ≡ true
    → any (has_id j) bs ≡ false
unfolding IsKeyed
head_alone j b bs k h = any-count (has_id j) bs (ground (arith, k j))

module _ (id j : String) where
  find-except :
      (bs : List BatchRow)
      → IsKeyed bs
      → find (has_id j) (except (batch_of id) bs) ≡ elim (find (has_id j) bs) [
        | none ↦ none
        | some b ↦ if batch_of id b then none else some b
      ]
  find-except [] k = refl
  find-except (b ∷ bs) k = ground (
    arith,
    find-except bs (tail-IsKeyed b bs k),
    head_alone j b bs k,
    find-none-except (has_id j) (batch_of id) bs,
  )

  none-has_id :
      (bs : List BatchRow)
      → any (has_id j) bs ≡ false
      → any (λ b. batch_of id b && b.id == j) bs ≡ false
  none-has_id [] h = refl
  none-has_id (b ∷ bs) h = ground (arith, none-has_id bs)

  -- Whether the university has the batch can be seen at the one row with its identifier.
  has_batch-find :
      (bs : List BatchRow)
      → IsKeyed bs
      → any (λ b. batch_of id b && b.id == j) bs
        ≡ elim (find (has_id j) bs) [ none ↦ false | some b ↦ batch_of id b ]
  has_batch-find [] k = refl
  has_batch-find (b ∷ bs) k =
      ground (arith, has_batch-find bs (tail-IsKeyed b bs k), head_alone j b bs k, none-has_id bs)

module _ (id : String) (t : Tables) (keyed : IsKeyed t.db.batches) (c : IsConsistent t.db) where
  of_batch-error : (j : String) (r : ResultRow) → is_error_of j r ≡ true → of_batch j r ≡ true
  of_batch-error j r h = ground arith

  erased_fits :
      (j : String) (b : BatchRow)
      → find (has_id j) (erased id t).db.batches ≡ some b
      → BatchFits (erased id t).db j b
  erased_fits j b h =
      let same = find-except id j t.db.batches keyed in
      let has = has_batch-find id j t.db.batches keyed in
      let (found, own) : (find (has_id j) t.db.batches ≡ some b) × (batch_of id b ≡ false) =
        elim (Option-cases (find (has_id j) t.db.batches)) [
          | inl gone ↦ absurd (ground arith)
          | inr (o, at) ↦ elim (Bool-cases (batch_of id o)) [
            | inl its ↦ absurd (ground arith)
            | inr other ↦ let e : o ≡ b = ground arith in (ground arith, rw (← e) other)
          ]
        ] in
      let free : has_batch id j t ≡ false = ground arith in
      let f = c.fits j b found in
      let counts : count (of_batch j) (erased id t).db.results ≡ count (of_batch j) t.db.results =
        count-except_kept (of_batch j) (result_of id t.db.batches) t.db.results
          λ r h. in_batch id t j r.batch_id h ∙ free in
      let errors : count (is_error_of j) (erased id t).db.results
          ≡ count (is_error_of j) t.db.results =
        count-except_kept (is_error_of j) (result_of id t.db.batches) t.db.results
          λ r h. in_batch id t j r.batch_id (of_batch-error j r h) ∙ free in
      record {
        counted = f.counted ∙ sym counts;
        unfinished = f.unfinished;
        complete = λ done. let (whole, good) = f.complete done in (whole, errors ∙ good);
      }

  erased_owned :
      (j : String)
      → find (has_id j) (erased id t).db.batches ≡ none
      → count (of_batch j) (erased id t).db.results ≡ 0
  erased_owned j h =
      let same = find-except id j t.db.batches keyed in
      let has = has_batch-find id j t.db.batches keyed in
      elim (Bool-cases (has_batch id j t)) [
        | inl its ↦
            count-except_gone (of_batch j) (result_of id t.db.batches) t.db.results
              λ r h. in_batch id t j r.batch_id h ∙ its
        | inr free ↦
            let counts =
              count-except_kept (of_batch j) (result_of id t.db.batches) t.db.results
                λ r h. in_batch id t j r.batch_id h ∙ free in
            counts ∙ c.owned j (ground arith)
      ]

  erased-IsConsistent : IsConsistent (erased id t).db
  erased-IsConsistent = record { fits = erased_fits; owned = erased_owned }

-- The removal of a university, whichever statement fails, leaves consistent tables consistent, where
-- the identifiers of the batches are a key.
pub delete_cascade-IsConsistent :
    (env : Surroundings) (id : String) (t : Tables)
    → IsKeyed t.db.batches
    → IsConsistent t.db
    → IsConsistent (delete_cascade env id t).1.db
delete_cascade-IsConsistent env id t keyed c = elim (delete_cascade-cases env id t) [
  | inl done ↦ rw done (erased-IsConsistent id t keyed c)
  | inr (e, broken) ↦ rw broken c
]
