-- ===== src/QuestionBank/Rows.antt =====
-- The loop of `validateQuestionBankCsv` of apps/api/src/question-bank/question-bank.csv.ts: the
-- checks of one row, and what the rows before it have left.
use elder_interview_ai.Prelude.{
  ℕ, Bool, true, false, not, ◌&&◌, ◌||◌, String, List, [], ◌∷◌, ◌++◌, Option, none, some,
  if◌then◌else◌, ltb, eqb, length, any,
}
use elder_interview_ai.QuestionBank.Types.{
  Units, question_bank_headers, question_purposes, ValidationError, ValidatedRow, contains,
  is_known, is_word,
}
use elder_interview_ai.QuestionBank.Csv.{CsvRow}
use elder_interview_ai.QuestionBank.Fields.{
  is_empty, field, is_identifier, Conditions, parse_conditions, license_combination_allowed,
}

abbrev pub known_banks : List String
known_banks = "basic" ∷ "deep" ∷ []

abbrev pub known_sensitivities : List String
known_sensitivities = "low" ∷ "medium" ∷ "high" ∷ []

abbrev pub known_sources : List String
known_sources =
    "project_original" ∷ "licensed_external" ∷ "public_domain" ∷ "synthetic_fixture" ∷ []

abbrev pub known_licenses : List String
known_licenses = "project_original" ∷ "verified" ∷ "unverified" ∷ "fixture_only" ∷ []

-- The variables of the loop; the sets are lists without repetition.
pub record Checked : Type 0 where
  pub errors : List ValidationError
  pub rows : List ValidatedRow
  pub question_ids : List Units
  pub bank_versions : List Units

-- `set.add(value)`, unless the value is empty.
unfoldable pub add_text : Units → List Units → List Units
add_text t ts = if is_empty t || contains t ts then ts else ts ++ t ∷ []

-- An error of this code and column if the test holds.
abbrev pub error_if : Bool → String → Option String → ℕ → List ValidationError
error_if true code column row = record { code = code; column = column; row = row } ∷ []
error_if false code column row = []

-- The errors in the order in which they are pushed.
abbrev pub all_errors : List (List ValidationError) → List ValidationError
all_errors [] = []
all_errors (e ∷ es) = e ++ all_errors es

-- The call `required`, in the columns that need a value.
abbrev pub required_errors : List (String × String) → CsvRow → List ValidationError
required_errors [] r = []
required_errors ((column, code) ∷ rest) r =
    error_if (is_empty (field column r.fields)) code (some column) r.row ++ required_errors rest r

abbrev pub required_columns : List (String × String)
required_columns =
    ("question_id", "QUESTION_BANK_FIELD_REQUIRED")
    ∷ ("bank", "QUESTION_BANK_FIELD_REQUIRED")
    ∷ ("topic", "QUESTION_BANK_FIELD_REQUIRED")
    ∷ ("question_text", "QUESTION_BANK_FIELD_REQUIRED")
    ∷ ("purpose", "QUESTION_BANK_PURPOSE_REQUIRED")
    ∷ ("sensitivity", "QUESTION_BANK_FIELD_REQUIRED")
    ∷ ("source_type", "QUESTION_BANK_FIELD_REQUIRED")
    ∷ ("source_reference", "QUESTION_BANK_SOURCE_REFERENCE_REQUIRED")
    ∷ ("license_status", "QUESTION_BANK_FIELD_REQUIRED")
    ∷ ("license_reference", "QUESTION_BANK_LICENSE_REFERENCE_REQUIRED")
    ∷ ("bank_version", "QUESTION_BANK_FIELD_REQUIRED")
    ∷ ("enabled", "QUESTION_BANK_FIELD_REQUIRED")
    ∷ []

-- A value that is there and not in the vocabulary.
abbrev pub unknown_if : List String → Units → Bool
unknown_if words t = not (is_empty t) && not (is_known words t)

unfoldable pub identifier_errors : Units → List Units → ℕ → List ValidationError
identifier_errors question_id seen row =
    if not (is_empty question_id) && not (is_identifier question_id)
    then error_if true "QUESTION_BANK_FIELD_INVALID" (some "question_id") row
    else error_if (contains question_id seen) "QUESTION_BANK_QUESTION_ID_DUPLICATE"
        (some "question_id") row

unfoldable pub vocabulary_errors : CsvRow → List ValidationError
vocabulary_errors r =
    let value : String → Units = λ column. field column r.fields in
    all_errors (
      error_if (unknown_if known_banks (value "bank")) "QUESTION_BANK_ENUM_UNKNOWN" (some "bank")
        r.row
      ∷ error_if
          (ltb 120 (length (value "topic"))
            || ltb 2000 (length (value "question_text"))
            || ltb 80 (length (value "bank_version")))
          "QUESTION_BANK_FIELD_INVALID" none r.row
      ∷ error_if (unknown_if question_purposes (value "purpose")) "QUESTION_BANK_PURPOSE_UNKNOWN"
          (some "purpose") r.row
      ∷ error_if (unknown_if known_sensitivities (value "sensitivity")) "QUESTION_BANK_ENUM_UNKNOWN"
          (some "sensitivity") r.row
      ∷ error_if (unknown_if known_sources (value "source_type")) "QUESTION_BANK_ENUM_UNKNOWN"
          (some "source_type") r.row
      ∷ error_if (unknown_if known_licenses (value "license_status")) "QUESTION_BANK_ENUM_UNKNOWN"
          (some "license_status") r.row
      ∷ error_if (unknown_if ("true" ∷ "false" ∷ []) (value "enabled"))
          "QUESTION_BANK_ENABLED_INVALID" (some "enabled") r.row
      ∷ error_if
          (ltb 500 (length (value "source_reference"))
            || ltb 500 (length (value "license_reference")))
          "QUESTION_BANK_FIELD_INVALID" none r.row
      ∷ [])

unfoldable pub applicable : CsvRow → Conditions
applicable r = parse_conditions (field "applicable_when" r.fields) "applicable_when" r.row

unfoldable pub inapplicable : CsvRow → Conditions
inapplicable r = parse_conditions (field "inapplicable_when" r.fields) "inapplicable_when" r.row

abbrev pub contradictory : Conditions → Conditions → Bool
contradictory a b = any (λ t. contains t b.values) a.values

unfoldable pub condition_errors : CsvRow → List ValidationError
condition_errors r = all_errors (
    (applicable r).errors
    ∷ (inapplicable r).errors
    ∷ error_if (contradictory (applicable r) (inapplicable r))
        "QUESTION_BANK_CONDITION_CONTRADICTORY" none r.row
    ∷ [])

unfoldable pub license_errors : CsvRow → List ValidationError
license_errors r =
    let source_type = field "source_type" r.fields in
    let license_status = field "license_status" r.fields in
    error_if
      (is_known known_sources source_type
        && is_known known_licenses license_status
        && not (license_combination_allowed source_type license_status))
      "QUESTION_BANK_LICENSE_COMBINATION_INVALID" none r.row

-- `rowErrors`, for a row of the right number of columns.
unfoldable pub row_errors : List Units → CsvRow → List ValidationError
row_errors seen r = all_errors (
    required_errors required_columns r
    ∷ identifier_errors (field "question_id" r.fields) seen r.row
    ∷ vocabulary_errors r
    ∷ condition_errors r
    ∷ license_errors r
    ∷ [])

-- The row that goes into the result.
unfoldable pub validated_row : CsvRow → ValidatedRow
validated_row r = record {
  applicable_condition_codes = (applicable r).values;
  bank = field "bank" r.fields;
  bank_version = field "bank_version" r.fields;
  enabled = is_word "true" (field "enabled" r.fields);
  inapplicable_condition_codes = (inapplicable r).values;
  license_reference = field "license_reference" r.fields;
  license_status = field "license_status" r.fields;
  purpose = field "purpose" r.fields;
  question_id = field "question_id" r.fields;
  question_text = field "question_text" r.fields;
  sensitivity = field "sensitivity" r.fields;
  source_reference = field "source_reference" r.fields;
  source_type = field "source_type" r.fields;
  topic = field "topic" r.fields;
}

abbrev pub no_errors : List ValidationError → Bool
no_errors [] = true
no_errors (e ∷ es) = false

abbrev pub columns_fit : CsvRow → Bool
columns_fit r = eqb (length r.fields) (length question_bank_headers)

-- One round of the loop.
unfoldable pub check_row : CsvRow → Checked → Checked
check_row r c =
    if columns_fit r
    then (let found = row_errors c.question_ids r in
        record {
          errors = c.errors ++ found;
          rows = if no_errors found then c.rows ++ validated_row r ∷ [] else c.rows;
          question_ids = add_text (field "question_id" r.fields) c.question_ids;
          bank_versions = add_text (field "bank_version" r.fields) c.bank_versions;
        })
    else record c { errors = c.errors ++ error_if true "QUESTION_BANK_ROW_COLUMN_COUNT" none r.row }

unfoldable pub check_rows : List CsvRow → Checked → Checked
check_rows [] c = c
check_rows (r ∷ rs) c = check_rows rs (check_row r c)

abbrev pub unchecked : Checked
unchecked = record { errors = []; rows = []; question_ids = []; bank_versions = [] }
