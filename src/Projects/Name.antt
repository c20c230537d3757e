-- ===== src/Projects/Name.antt =====
-- crates/projects/src/project/domain/value.rs, `ProjectName`, and error.rs. A Rust string is its
-- Unicode scalar values.
use oh_my_dream.Common.{
  ℕ, Bool, true, false, ◌&&◌, ◌||◌, ◌≡◌, refl, inl, inr, List, [], ◌∷◌, ◌++◌, ◌≤◌, all, any, length,
  is_empty, ltb, leb, ◌==◌, Result, ok, err, if◌then◌else◌, Bool-cases, arith,
}

pub data ProjectDomainError : Type 0 where
  project_name_empty project_name_too_long project_name_contains_control : ProjectDomainError
  project_name_unchanged project_revision_overflow project_timestamp_out_of_range :
      ProjectDomainError
  project_timestamp_overflow : ProjectDomainError

abbrev between : ℕ → ℕ → ℕ → Bool
between a b c = leb a c && leb c b

-- `char::is_whitespace`: the Unicode property White_Space.
unfoldable pub is_whitespace : ℕ → Bool
is_whitespace c =
    between 0x9 0xd c
    || c == 0x20
    || c == 0x85
    || c == 0xa0
    || c == 0x1680
    || between 0x2000 0x200a c
    || c == 0x2028
    || c == 0x2029
    || c == 0x202f
    || c == 0x205f
    || c == 0x3000

-- `char::is_control`: the Unicode category Cc.
unfoldable pub is_control : ℕ → Bool
is_control c = ltb c 0x20 || between 0x7f 0x9f c

unfoldable pub trim_start : List ℕ → List ℕ
trim_start [] = []
trim_start (c ∷ cs) = let rest = trim_start cs in if is_whitespace c then rest else c ∷ cs

unfoldable pub trim_end : List ℕ → List ℕ
trim_end [] = []
trim_end (c ∷ cs) =
    let rest = trim_end cs in if is_empty rest && is_whitespace c then [] else c ∷ rest

-- `str::trim`
abbrev pub trim : List ℕ → List ℕ
trim value = trim_end (trim_start value)

abbrev pub max_project_name_chars : ℕ
max_project_name_chars = 120

-- The tests of a normalized name.
abbrev pub checked : List ℕ → Result ProjectDomainError (List ℕ)
checked normalized =
    if is_empty normalized
    then err project_name_empty
    else if any is_control normalized
    then err project_name_contains_control
    else if ltb max_project_name_chars (length normalized)
    then err project_name_too_long
    else ok normalized

unfoldable pub new : List ℕ → Result ProjectDomainError (List ℕ)
new value = checked (trim value)

trim_end_idem : (cs : List ℕ) → trim_end (trim_end cs) ≡ trim_end cs
unfolding trim_end
trim_end_idem [] = refl
trim_end_idem (c ∷ cs) = elim (Bool-cases (is_empty (trim_end cs) && is_whitespace c)) [
  | inl h ↦ ground arith
  | inr h ↦ ground (arith, trim_end_idem cs)
]

trim_start-trim_end :
    (cs : List ℕ) → trim_start (trim_end (trim_start cs)) ≡ trim_end (trim_start cs)
unfolding trim_start trim_end
trim_start-trim_end [] = refl
trim_start-trim_end (c ∷ cs) = elim (Bool-cases (is_whitespace c)) [
  | inl h ↦ ground (arith, trim_start-trim_end cs)
  | inr h ↦ ground arith
]

pub trim_idem : (cs : List ℕ) → trim (trim cs) ≡ trim cs
trim_idem cs = rw (trim_start-trim_end cs) (trim_end_idem (trim_start cs))

-- An accepted name is accepted again, as itself: a saved name restores.
pub new_stable : (value name : List ℕ) → new value ≡ ok name → new name ≡ ok name
unfolding new
new_stable value name e = ground (arith, trim_idem value)

trim_start_split :
    (cs : List ℕ)
    → (before : List ℕ) × (cs ≡ before ++ trim_start cs) × (all is_whitespace before ≡ true)
unfolding trim_start
trim_start_split [] = ([], refl, refl)
trim_start_split (c ∷ cs) = elim (Bool-cases (is_whitespace c)) [
  | inl h ↦
      let (before, split, white) = trim_start_split cs in (c ∷ before, ground arith, ground arith)
  | inr h ↦ ([], ground arith, refl)
]

trim_end_split :
    (cs : List ℕ)
    → (after : List ℕ) × (cs ≡ trim_end cs ++ after) × (all is_whitespace after ≡ true)
unfolding trim_end
trim_end_split [] = ([], refl, refl)
trim_end_split (c ∷ cs) =
    let (after, split, white) = trim_end_split cs in
    elim (Bool-cases (is_empty (trim_end cs) && is_whitespace c)) [
      | inl h ↦ (c ∷ after, ground arith, ground arith)
      | inr h ↦ (after, ground arith, white)
    ]

-- What the accepted name is of the text: only white space is cut off, and only at the ends.
pub record IsNormalized (value name : List ℕ) : Type 0 where
  pub before : List ℕ
  pub after : List ℕ
  pub split : value ≡ before ++ (name ++ after)
  pub white_before : all is_whitespace before ≡ true
  pub white_after : all is_whitespace after ≡ true
  pub trimmed : trim name ≡ name
  pub filled : is_empty name ≡ false
  pub printable : any is_control name ≡ false
  pub bounded : length name ≤ 120

-- An accepted name is the text without the white space at its ends, is neither empty nor longer than
-- 120 characters, and has no control character.
pub new-IsNormalized : (value name : List ℕ) → new value ≡ ok name → IsNormalized value name
unfolding new
new-IsNormalized value name e =
    let (before, split, white) = trim_start_split value in
    let (after, split', white') = trim_end_split (trim_start value) in
    record {
      before = before;
      after = after;
      split = ground arith;
      white_before = white;
      white_after = white';
      trimmed = ground (arith, trim_idem value);
      filled = ground arith;
      printable = ground arith;
      bounded = ground arith;
    }
