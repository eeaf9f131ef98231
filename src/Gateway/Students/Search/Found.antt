-- ===== src/Gateway/Students/Search/Found.antt =====
-- What a search for students finds.
use diasoft.Prelude.{
  All, order_by-All, count-select, none, ◌<◌, String, ◌≡◌, refl, ap, ◌∙◌, some, List, [], ◌∷◌, ◌++◌,
  Bool, true, false, ◌||◌, ◌&&◌, ok, err, leb, select, blank, ◌==◌, Eq-string, arith, inl, inr,
  Bool-cases, Option-cases, count, IsOrdered, order_by-IsOrdered, count-order_by, Result-cases, ◌⊎◌,
  length,
}
use diasoft.Gateway.Model.{driver, Error}
use diasoft.Gateway.Store.{HashRow, Db, Env, select_students}
use diasoft.Gateway.Results.{parse_qr_payload}
use diasoft.Gateway.Students.{Student, Joined}
use diasoft.Gateway.Students.Search.Joins.{is_joined, IsJoined, count-join_all, join_all-IsJoined}
use diasoft.Gateway.Students.Search.{
  has_number, join_all, newer, rows_of, read_row, is_named, search_students,
}
use diasoft.Gateway.Students.Search.Loop.{Reads, bears_name, collect-ok, collect-err}

newer_total : (a b : Joined) → newer a b ≡ false → newer b a ≡ true
newer_total a b h = ground arith

-- The rows of the joins whose diploma has the number asked for, if one is: each diploma as often as it is in the
-- table, if it has an accepted result and its university, from the one that was registered last on.
pub record Rows (number : String) (db : Db) (js : List Joined) : Type 0 where
  pub in_order : IsOrdered (λ a b. leb b.hash.created_at a.hash.created_at) js
  pub admitted :
      (q : HashRow → Bool)
      → count (λ j. q j.hash) js
        ≡ count
            (λ h. (blank number || h.diploma_number == number) && (is_joined db h && q h))
            db.hashes
  pub joined : All (IsJoined db) js

admits :
    (number : String) (h : HashRow)
    → has_number number h ≡ (blank number || h.diploma_number == number)
admits number h = elim (Bool-cases (blank number)) [
  | inl open_to_all ↦ ground arith
  | inr given ↦ ground arith
]

count-same :
    {A : Type 0} (p q : A → Bool) (xs : List A) → ((x : A) → p x ≡ q x) → count p xs ≡ count q xs
count-same p q [] e = refl
count-same p q (x ∷ xs) e = ground (arith, e x, count-same p q xs e)

rows_of-Rows : (number : String) (db : Db) → Rows number db (rows_of number db)
rows_of-Rows number db =
    let listed = select (has_number number) db.hashes in
    record {
      in_order = order_by-IsOrdered newer newer_total (join_all db listed);
      admitted = λ q.
          count-order_by newer (λ j. q j.hash) (join_all db listed)
          ∙ count-join_all db q listed
          ∙ count-select (λ h. is_joined db h && q h) (has_number number) db.hashes
          ∙ count-same (λ h. has_number number h && (is_joined db h && q h))
              (λ h. (blank number || h.diploma_number == number) && (is_joined db h && q h))
              db.hashes (λ h. ap (λ b. b && (is_joined db h && q h)) (admits number h));
      joined = order_by-All newer (IsJoined db) (join_all db listed) (join_all-IsJoined db listed);
    }

-- What a search has found: it has read the rows up to some point, which is their end or where 50 students
-- were found, and these are the students with the name among those that it read.
pub record Finds (to_lower : String → String) (env : Env) (number name : String) (db : Db)
    (found : List Student) : Type 0 where
  pub rows : List Joined
  pub are_rows : Rows number db rows
  pub front : List Joined
  pub rest : List Joined
  pub parts : rows ≡ front ++ rest
  pub students : List Student
  pub reads : Reads env front students
  pub shown : found ≡ select (bears_name to_lower name) students
  pub ends : (rest ≡ []) ⊎ (length found ≡ 50)

-- The row has no payload, which the scan refuses, or one that the decoder refuses.
abbrev pub IsUnread : Env → Joined → Error → Type 0
IsUnread env j e =
    ((j.qr_payload ≡ none) × (e ≡ driver))
    ⊎ ((payload : String) × (j.qr_payload ≡ some payload)
        × (parse_qr_payload env.decoder payload ≡ err e))

read_row-IsUnread : (env : Env) (j : Joined) (e : Error) → read_row env j ≡ err e → IsUnread env j e
read_row-IsUnread env j e h = elim (Option-cases j.qr_payload) [
  | inl missing ↦ inl (missing, ground arith)
  | inr (payload, stored) ↦ elim (Result-cases (parse_qr_payload env.decoder payload)) [
    | inr (e', broken) ↦ inr (payload, stored, ground arith)
    | inl (qr, parsed) ↦ absurd (ground arith)
  ]
]

-- What a search has failed at: a row that does not read, behind rows that do, with fewer than 50 students
-- with the name among them.
pub record Fails (to_lower : String → String) (env : Env) (number name : String) (db : Db)
    (e : Error) : Type 0 where
  pub rows : List Joined
  pub are_rows : Rows number db rows
  pub front : List Joined
  pub unread : Joined
  pub rest : List Joined
  pub parts : rows ≡ front ++ unread ∷ rest
  pub students : List Student
  pub reads : Reads env front students
  pub few : count (bears_name to_lower name) students < 50
  pub broken : IsUnread env unread e

-- A search that succeeds has gone through the diplomas with the number asked for, if one is, that have an
-- accepted result and a university, from the one registered last on, up to their end or to the fiftieth student found;
-- every payload up to there was read; and it gives, in this order, the students whose full name contains the
-- trimmed name, both in lower case, or all if that is empty.
pub search_students-Finds :
    (to_lower : String → String) (env : Env) (number name : String) (db : Db) (found : List Student)
    → search_students to_lower env number name db ≡ ok found
    → Finds to_lower env number name db found
unfolding search_students
search_students-Finds to_lower env number name db found h =
    let (front, rest, ss, parts, reads, shown, ends) =
      collect-ok env (is_named to_lower name) 50 (rows_of number db) found
        (elim (Bool-cases (env.down select_students)) [
          | inl broken ↦ absurd (ground arith)
          | inr up ↦ ground arith
        ]) in
    record {
      rows = rows_of number db;
      are_rows = rows_of-Rows number db;
      front = front;
      rest = rest;
      parts = parts;
      students = ss;
      reads = reads;
      shown = shown;
      ends = ends;
    }

-- While the database answers, a search fails only at a diploma whose payload does not read, of those with the
-- number asked for, if one is, that have an accepted result and a university; all that were registered after it were
-- read, and fewer than 50 of them have the name asked for.
pub search_students-Fails :
    (to_lower : String → String) (env : Env) (number name : String) (db : Db) (e : Error)
    → env.down select_students ≡ false
    → search_students to_lower env number name db ≡ err e
    → Fails to_lower env number name db e
unfolding search_students
search_students-Fails to_lower env number name db e up h =
    let (front, j, rest, ss, parts, reads, few, broken) =
      collect-err env (is_named to_lower name) 50 (rows_of number db) e (ground arith) in
    record {
      rows = rows_of number db;
      are_rows = rows_of-Rows number db;
      front = front;
      unread = j;
      rest = rest;
      parts = parts;
      students = ss;
      reads = reads;
      few = few;
      broken = read_row-IsUnread env j e broken;
    }
