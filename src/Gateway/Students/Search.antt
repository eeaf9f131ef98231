-- ===== src/Gateway/Students/Search.antt =====
-- SearchStudents of internal/repository/postgres/diploma_repository.go.
pub mod Found
pub mod Joins
pub mod Loop
use diasoft.Prelude.{
  ℕ, zero, suc, String, ◌≡◌, refl, ap, ◌∙◌, none, some, List, [], ◌∷◌, Bool, true, false, ◌||◌,
  Result, ok, err, ◌>>=◌, leb, select, take, order_by, blank, is_empty, trim_space, contains, ◌==◌,
  Eq-string, if◌then◌else◌, arith, inl, inr, Bool-cases,
}
use diasoft.Gateway.Model.{Error, driver}
use diasoft.Gateway.Store.{HashRow, Db, Env, select_students}
use diasoft.Gateway.Results.{parse_qr_payload}
use diasoft.Gateway.Students.{Student, Joined, join_diploma, student_of, scan_text}

-- The condition on the number, where one is given; it is compared as it was given.
abbrev pub has_number : String → HashRow → Bool
has_number number h = if blank number then true else h.diploma_number == number

-- The rows of the two joins.
abbrev pub join_all : Db → List HashRow → List Joined
join_all db [] = []
join_all db (h ∷ hs) =
    let rest = join_all db hs in elim (join_diploma h db) [ none ↦ rest | some j ↦ j ∷ rest ]

abbrev pub newer : Joined → Joined → Bool
newer a b = leb b.hash.created_at a.hash.created_at

abbrev pub rows_of : String → Db → List Joined
rows_of number db = order_by newer (join_all db (select (has_number number) db.hashes))

-- The payload of a row, and what it says.
abbrev pub read_row : Env → Joined → Result Error Student
read_row env j = do
  payload ← scan_text j.qr_payload
  qr ← parse_qr_payload env.decoder payload
  ok (student_of j qr)

-- The test of the name; `to_lower` is strings.ToLower.
abbrev pub is_named : (String → String) → String → Student → Bool
is_named to_lower name s =
    let normalized = to_lower (trim_space name) in
    is_empty normalized || contains (to_lower s.full_name) normalized

-- The loop over the rows, with room for as many more.
unfoldable pub collect : Env → (Student → Bool) → ℕ → List Joined → Result Error (List Student)
collect env named room [] = ok []
collect env named zero (j ∷ js) = ok []
collect env named (suc room) (j ∷ js) = elim (read_row env j) [
  | err e ↦ err e
  | ok s ↦ elim (named s) [
    | false ↦ collect env named (suc room) js
    | true ↦ collect env named room js >>= λ more. ok (s ∷ more)
  ]
]

unfoldable pub search_students :
    (String → String) → Env → String → String → Db → Result Error (List Student)
unfolding collect
search_students to_lower env number name db = elim (env.down select_students) [
  | true ↦ err driver
  | false ↦ collect env (is_named to_lower name) 50 (rows_of number db)
]
