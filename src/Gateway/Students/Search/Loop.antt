-- ===== src/Gateway/Students/Search/Loop.antt =====
-- The loop of SearchStudents over the rows.
use diasoft.Prelude.{
  ℕ, zero, suc, ◌<◌, String, ◌≡◌, refl, ap, ◌∙◌, sym, some, List, [], ◌∷◌, ◌++◌, Bool, ◌||◌, ok,
  err, select, is_empty, trim_space, contains, Eq-string, arith, inl, inr, Bool-cases, Option-cases,
  count, bind-ok, Result-cases, ◌⊎◌, length,
}
use diasoft.Gateway.Model.{Error, ParsedQr}
use diasoft.Gateway.Store.{Env}
use diasoft.Gateway.Results.{parse_qr_payload}
use diasoft.Gateway.Students.{Student, Joined}
use diasoft.Gateway.Students.Search.{read_row, collect}

-- The student that the payload of a row tells of.
pub record ReadsAs (env : Env) (j : Joined) (s : Student) : Type 0 where
  pub payload : String
  pub qr : ParsedQr
  pub stored : j.qr_payload ≡ some payload
  pub parsed : parse_qr_payload env.decoder payload ≡ ok qr
  pub student : s ≡ record {
    diploma_hash = j.hash.hash;
    diploma_number = qr.diploma_number;
    full_name = qr.full_name;
    specialty = qr.specialty;
    degree = qr.degree;
    faculty = qr.faculty;
    year = qr.year;
    university_id = j.university_id;
    university_name = j.university_name;
    status = j.hash.status;
    created_at = j.hash.created_at;
  }

-- Every row reads, as these students.
abbrev pub Reads : Env → List Joined → List Student → Type 0
Reads env [] [] = Unit
Reads env [] (s ∷ ss) = ⊥
Reads env (j ∷ js) [] = ⊥
Reads env (j ∷ js) (s ∷ ss) = ReadsAs env j s × Reads env js ss

read_row-ReadsAs : (env : Env) (j : Joined) (s : Student) → read_row env j ≡ ok s → ReadsAs env j s
read_row-ReadsAs env j s read = elim (Option-cases j.qr_payload) [
  | inl missing ↦ absurd (ground arith)
  | inr (payload, stored) ↦ elim (Result-cases (parse_qr_payload env.decoder payload)) [
    | inr (e, broken) ↦ absurd (ground arith)
    | inl (qr, parsed) ↦ record {
      payload = payload;
      qr = qr;
      stored = stored;
      parsed = parsed;
      student = ground arith;
    }
  ]
]

-- The name asked for, less its spaces, stands in the full name, both in lower case, or is empty.
abbrev pub bears_name : (String → String) → String → Student → Bool
bears_name to_lower name s =
    is_empty (to_lower (trim_space name))
    || contains (to_lower s.full_name) (to_lower (trim_space name))

-- The loop stops with success at the end of the rows, or where it has no room left.
pub collect-ok :
    (env : Env) (named : Student → Bool) (room : ℕ) (js : List Joined) (found : List Student)
    → collect env named room js ≡ ok found
    → (front rest : List Joined) × (ss : List Student) × (js ≡ front ++ rest)
      × Reads env front ss
      × (found ≡ select named ss)
      × ((rest ≡ []) ⊎ (length found ≡ room))
unfolding collect
collect-ok env named zero [] found h = ([], [], [], refl, tt, ground arith, inl refl)
collect-ok env named (suc room) [] found h = ([], [], [], refl, tt, ground arith, inl refl)
collect-ok env named zero (j ∷ js) found h =
    let empty : found ≡ [] = ground arith in
    ([], j ∷ js, [], refl, tt, empty, inr (ap length empty))
collect-ok env named (suc room) (j ∷ js) found h = elim (Result-cases (read_row env j)) [
  | inr (e, broken) ↦ absurd (ground arith)
  | inl (s, read) ↦ elim (Bool-cases (named s)) [
    | inr other ↦
        let (front, rest, ss, parts, reads, shown, ends) =
          collect-ok env named (suc room) js found (ground arith) in
        (
          j ∷ front,
          rest,
          s ∷ ss,
          ap (λ t. j ∷ t) parts,
          (read_row-ReadsAs env j s read, reads),
          ground arith,
          ends,
        )
    | inl hit ↦
        let (more, looked, same) =
          bind-ok (collect env named room js) (λ more. ok (s ∷ more)) {b = found} (ground arith) in
        let cons : s ∷ more ≡ found = ground arith in
        let (front, rest, ss, parts, reads, shown, ends) =
          collect-ok env named room js more looked in
        (
          j ∷ front,
          rest,
          s ∷ ss,
          ap (λ t. j ∷ t) parts,
          (read_row-ReadsAs env j s read, reads),
          ground arith,
          elim ends [ inl done ↦ inl done | inr full ↦ inr (ap length (sym cons) ∙ ap suc full) ],
        )
  ]
]

-- The loop fails at a row that does not read, while it still has room.
pub collect-err :
    (env : Env) (named : Student → Bool) (room : ℕ) (js : List Joined) (e : Error)
    → collect env named room js ≡ err e
    → (front : List Joined) × (j : Joined) × (rest : List Joined) × (ss : List Student) × (js
        ≡ front ++ j ∷ rest)
      × Reads env front ss
      × (count named ss < room)
      × (read_row env j ≡ err e)
unfolding collect
collect-err env named zero [] e h = absurd (ground arith)
collect-err env named (suc room) [] e h = absurd (ground arith)
collect-err env named zero (j ∷ js) e h = absurd (ground arith)
collect-err env named (suc room) (j ∷ js) e h = elim (Result-cases (read_row env j)) [
  | inr (e', broken) ↦ ([], j, js, [], refl, tt, omega arith, ground arith)
  | inl (s, read) ↦ elim (Bool-cases (named s)) [
    | inr other ↦
        let (front, i, rest, ss, parts, reads, few, broken) =
          collect-err env named (suc room) js e (ground arith) in
        (
          j ∷ front,
          i,
          rest,
          s ∷ ss,
          ap (λ t. j ∷ t) parts,
          (read_row-ReadsAs env j s read, reads),
          ground arith,
          broken,
        )
    | inl hit ↦ elim (Result-cases (collect env named room js)) [
      | inl (more, looked) ↦ absurd (ground arith)
      | inr (e', failed) ↦
          let (front, i, rest, ss, parts, reads, few, broken) =
            collect-err env named room js e (ground arith) in
          (
            j ∷ front,
            i,
            rest,
            s ∷ ss,
            ap (λ t. j ∷ t) parts,
            (read_row-ReadsAs env j s read, reads),
            ground arith,
            broken,
          )
    ]
  ]
]
