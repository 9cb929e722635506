-- ===== src/QuestionBank/Fields.antt =====
-- Texts and vocabularies of apps/api/src/question-bank/question-bank.csv.ts: trimming, splitting,
-- the order of texts, conditions, identifiers and licences.
use elder_interview_ai.Prelude.{
  ℕ, Bool, true, false, not, ◌&&◌, ◌||◌, String, List, [], ◌∷◌, ◌++◌, some, if◌then◌else◌, ltb, leb,
  eqb, length, all, or_else,
}
use mathlib.Core.List.{reverse}
use elder_interview_ai.Prelude.Map.{Map, get}
use elder_interview_ai.Prelude.Text.{is_space}
use elder_interview_ai.QuestionBank.Types.{
  Units, question_bank_headers, question_condition_codes, ValidationError, contains, is_known,
  is_word,
}

module _ {A : Type 0} (le : A → A → Bool) where
  unfoldable pub insert_with : A → List A → List A
  insert_with a [] = a ∷ []
  insert_with a (x ∷ xs) = if le a x then a ∷ x ∷ xs else x ∷ insert_with a xs

  -- `Array.prototype.sort`, where `le a b` says that the comparison of a with b is not positive.
  unfoldable pub sort_with : List A → List A
  sort_with [] = []
  sort_with (x ∷ xs) = insert_with x (sort_with xs)

-- The order of strings by code unit: `left <= right`.
unfoldable pub text_le : Units → Units → Bool
text_le [] bs = true
text_le (a ∷ s) [] = false
text_le (a ∷ s) (b ∷ bs) = if ltb a b then true else eqb a b && text_le s bs

unfoldable pub trim_start : Units → Units
trim_start [] = []
trim_start (c ∷ cs) = if is_space c then trim_start cs else c ∷ cs

unfoldable pub trim : Units → Units
trim t = reverse (trim_start (reverse (trim_start t)))

-- `text.split(unit)`, with the piece that is being read.
unfoldable pub split_from : ℕ → Units → Units → List Units
split_from unit piece [] = piece ∷ []
split_from unit piece (c ∷ cs) =
    if eqb c unit then piece ∷ split_from unit [] cs else split_from unit (piece ++ c ∷ []) cs

abbrev pub is_empty : Units → Bool
is_empty [] = true
is_empty (c ∷ cs) = false

abbrev pub name_fields : List String → List Units → Map Units
name_fields [] ts = []
name_fields (h ∷ hs) [] = []
name_fields (h ∷ hs) (t ∷ ts) = (h, trim t) ∷ name_fields hs ts

-- A column of a row, trimmed.
unfoldable pub field : String → List Units → Units
field column fields = or_else (get column (name_fields question_bank_headers fields)) []

abbrev trims_to : List String → List Units → Bool
trims_to [] [] = true
trims_to (h ∷ hs) (t ∷ ts) = is_word h (trim t) && trims_to hs ts
trims_to [] (t ∷ ts) = false
trims_to (h ∷ hs) [] = false

unfoldable pub header_matches : List Units → Bool
header_matches fields = trims_to question_bank_headers fields

abbrev between : ℕ → ℕ → ℕ → Bool
between low high c = leb low c && leb c high

-- `[A-Za-z0-9]`
unfoldable pub is_alphanumeric : ℕ → Bool
is_alphanumeric c = between 65 90 c || between 97 122 c || between 48 57 c

-- `[A-Za-z0-9._:-]`
unfoldable pub is_identifier_unit : ℕ → Bool
is_identifier_unit c = is_alphanumeric c || eqb c 46 || eqb c 95 || eqb c 58 || eqb c 45

-- `/^[A-Za-z0-9][A-Za-z0-9._:-]{0,119}$/u`
unfoldable pub is_identifier : Units → Bool
is_identifier [] = false
is_identifier (c ∷ cs) = is_alphanumeric c && all is_identifier_unit cs && leb (length cs) 119

-- The errors and values of `parseConditions`; the set `seen` is the list of values.
pub record Conditions : Type 0 where
  pub errors : List ValidationError
  pub values : List Units

abbrev condition_error : String → String → ℕ → Conditions → Conditions
condition_error code column row c = record c {
  errors = c.errors ++ record { code = code; column = some column; row = row } ∷ [];
}

unfoldable pub add_condition : String → ℕ → Units → Conditions → Conditions
add_condition column row token c =
    if is_empty token
    then condition_error "QUESTION_BANK_CONDITION_EMPTY_TOKEN" column row c
    else if not (is_known question_condition_codes token)
    then condition_error "QUESTION_BANK_CONDITION_UNKNOWN" column row c
    else if contains token c.values
    then condition_error "QUESTION_BANK_CONDITION_DUPLICATE" column row c
    else record c { values = c.values ++ token ∷ [] }

unfoldable pub add_conditions : String → ℕ → List Units → Conditions → Conditions
add_conditions column row [] c = c
add_conditions column row (t ∷ ts) c =
    add_conditions column row ts (add_condition column row (trim t) c)

unfoldable pub parse_conditions : Units → String → ℕ → Conditions
parse_conditions raw column row =
    if is_empty raw
    then record { errors = []; values = [] }
    else let read =
        add_conditions column row (split_from 59 [] raw) (record { errors = []; values = [] }) in
      record read { values = sort_with text_le read.values }

unfoldable pub license_combination_allowed : Units → Units → Bool
license_combination_allowed source_type license_status =
    if is_word "project_original" source_type
    then is_word "project_original" license_status
    else if is_word "synthetic_fixture" source_type
    then is_word "fixture_only" license_status
    else is_word "verified" license_status || is_word "unverified" license_status
