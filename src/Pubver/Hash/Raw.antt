-- ===== src/Pubver/Hash/Raw.antt =====
-- Which inputs have a raw text, and what the text tells of the input.
use diasoft.Prelude.{
  itoa, trim_space, String, ◌≡◌, sym, ap, ◌∙◌, ◌↔◌, true, false, ok, is_positive, all, join, split,
  is_free, split-join, blank, arith,
}
use diasoft.Pubver.Hash.{HashInput, validate, validate_core, parts, pipe, build_raw_diploma_string}

-- What a diploma's data must have.
pub record IsComplete (i : HashInput) : Type 0 where
  pub full_name : blank i.full_name ≡ false
  pub diploma_number : blank i.diploma_number ≡ false
  pub specialty : blank i.specialty ≡ false
  pub year : is_positive i.year ≡ true
  pub vuz_id : blank i.vuz_id ≡ false
  pub salt : blank i.salt ≡ false

-- The raw text is built exactly for complete data, and it is then the trimmed fields with bars
-- between them.
pub build_raw-IsComplete :
    (i : HashInput) (raw : String)
    → (build_raw_diploma_string i ≡ ok raw) ↔ IsComplete i × (raw ≡ join pipe (parts i))
unfolding build_raw_diploma_string validate validate_core
build_raw-IsComplete i raw = (
  λ h. (
    record {
      full_name = ground arith;
      diploma_number = ground arith;
      specialty = ground arith;
      year = ground arith;
      vuz_id = ground arith;
      salt = ground arith;
    },
    ground arith,
  ),
  λ (c, same). ground (arith, c.full_name, c.diploma_number, c.specialty, c.year, c.vuz_id, c.salt),
)

-- No field, trimmed, has a bar.
pub record HasNoBar (i : HashInput) : Type 0 where
  pub diploma_number : is_free b'|' (trim_space i.diploma_number) ≡ true
  pub full_name : is_free b'|' (trim_space i.full_name) ≡ true
  pub specialty : is_free b'|' (trim_space i.specialty) ≡ true
  pub degree : is_free b'|' (trim_space i.degree) ≡ true
  pub faculty : is_free b'|' (trim_space i.faculty) ≡ true
  pub year : is_free b'|' (itoa i.year) ≡ true
  pub vuz_id : is_free b'|' (trim_space i.vuz_id) ≡ true
  pub salt : is_free b'|' (trim_space i.salt) ≡ true

-- The same data, spaces at the ends of the texts aside, and the year by its decimal digits.
pub record Agrees (i j : HashInput) : Type 0 where
  pub diploma_number : trim_space i.diploma_number ≡ trim_space j.diploma_number
  pub full_name : trim_space i.full_name ≡ trim_space j.full_name
  pub specialty : trim_space i.specialty ≡ trim_space j.specialty
  pub degree : trim_space i.degree ≡ trim_space j.degree
  pub faculty : trim_space i.faculty ≡ trim_space j.faculty
  pub year : itoa i.year ≡ itoa j.year
  pub vuz_id : trim_space i.vuz_id ≡ trim_space j.vuz_id
  pub salt : trim_space i.salt ≡ trim_space j.salt

free_parts : (i : HashInput) → HasNoBar i → all (is_free b'|') (parts i) ≡ true
free_parts i free = ground (
  arith, free.diploma_number, free.full_name, free.specialty, free.degree, free.faculty, free.year,
  free.vuz_id, free.salt,
)

parts-Agrees : (i j : HashInput) → parts i ≡ parts j → Agrees i j
parts-Agrees i j same = record {
  diploma_number = ground arith;
  full_name = ground arith;
  specialty = ground arith;
  degree = ground arith;
  faculty = ground arith;
  year = ground arith;
  vuz_id = ground arith;
  salt = ground arith;
}

-- Two inputs whose fields have no bar get the same raw text only where all their eight fields agree: the
-- texts, spaces at the ends aside, and the decimal digits of the year.
pub build_raw-injective :
    (i j : HashInput) (raw : String)
    → HasNoBar i
    → HasNoBar j
    → build_raw_diploma_string i ≡ ok raw
    → build_raw_diploma_string j ≡ ok raw
    → Agrees i j
build_raw-injective i j raw free free' h h' =
    let (_, same) = (build_raw-IsComplete i raw).0 h in
    let (_, same') = (build_raw-IsComplete j raw).0 h' in
    parts-Agrees i j (
      sym (split-join pipe _ _ (free_parts i free))
      ∙ ap (split b'|') (sym same ∙ same')
      ∙ split-join pipe _ _ (free_parts j free'))
