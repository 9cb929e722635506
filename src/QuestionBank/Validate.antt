-- ===== src/QuestionBank/Validate.antt =====
-- `validateQuestionBankCsv` of apps/api/src/question-bank/question-bank.csv.ts: decode, read, check
-- the rows and the file as a whole, and digest what is right. The decoder and encoder of text, the
-- digest and the comparison by locale are the platform's.
use elder_interview_ai.Prelude.{
  ℕ, zero, suc, Bool, true, false, not, ◌&&◌, ◌||◌, String, List, [], ◌∷◌, ◌++◌, map, Option, none,
  some, if◌then◌else◌, ltb, eqb, length, all, any, keep, or_else,
}
use elder_interview_ai.Prelude.Int.{ℤ, pos, negsuc}
use elder_interview_ai.Prelude.Action.{Result, ok, err}
use elder_interview_ai.Prelude.Text.{codes, decimal}
use elder_interview_ai.QuestionBank.Types.{
  Units, question_bank_validator_version, Environment, local, formal_internal, production, Scope,
  product, internal_demo, ValidationError, ValidatedRow, Summary, ValidationResult, is_word,
}
use elder_interview_ai.QuestionBank.Csv.{CsvRow, parse_csv}
use elder_interview_ai.QuestionBank.Fields.{header_matches, sort_with, text_le}
use elder_interview_ai.QuestionBank.Rows.{Checked, all_errors, check_rows, unchecked, error_if}

pub record Platform : Type 0 where
  pub sha256 : List ℕ → String
  pub decode : List ℕ → Option Units
  pub encode : Units → List ℕ
  pub locale_compare : String → String → ℤ

-- `columns || by_code`, not positive.
abbrev by_columns : ℤ → ℤ → Bool
by_columns (negsuc a) by_code = true
by_columns (pos (suc a)) codes = false
by_columns (pos zero) (pos zero) = true
by_columns (pos zero) (pos (suc b)) = false
by_columns (pos zero) (negsuc b) = true

-- `left.row - right.row || compare columns || compare codes`, not positive.
abbrev pub error_le : Platform → ValidationError → ValidationError → Bool
error_le p left right =
    if ltb left.row right.row
    then true
    else if ltb right.row left.row
    then false
    else by_columns (p.locale_compare (or_else left.column "") (or_else right.column ""))
        (p.locale_compare left.code right.code)

unfoldable pub stable_errors : Platform → List ValidationError → List ValidationError
stable_errors p errors = sort_with (error_le p) errors

abbrev pub is_fixture : ValidatedRow → Bool
is_fixture r = is_word "synthetic_fixture" r.source_type

abbrev pub is_formal : Environment → Bool
is_formal formal_internal = true
is_formal production = true
is_formal local = false
is_formal Environment.test = false

abbrev pub no_rows : List ValidatedRow → Bool
no_rows [] = true
no_rows (r ∷ rs) = false

abbrev pub blocked : List ValidatedRow → Environment → Bool
blocked rows environment = not (no_rows rows) && all is_fixture rows && is_formal environment

-- The value of `inferScope`; its error is in `file_errors`.
unfoldable pub infer_scope : List ValidatedRow → Environment → Option Scope
infer_scope rows environment =
    if no_rows rows || blocked rows environment
    then none
    else some (if all is_fixture rows then internal_demo else product)

abbrev pub has_bank : String → List ValidatedRow → Bool
has_bank name rows = any (λ r. is_word name r.bank) rows

-- The errors of the file as a whole, `inferScope`'s last.
unfoldable pub file_errors : ℕ → Environment → Checked → List ValidationError
file_errors row_count environment c =
    let fixtures = length (keep is_fixture c.rows) in
    all_errors (
      error_if (eqb row_count 0) "QUESTION_BANK_FIELD_REQUIRED" none 2
      ∷ error_if (ltb 1 (length c.bank_versions)) "QUESTION_BANK_BANK_VERSION_MIXED"
          (some "bank_version") 1
      ∷ error_if
          (not (no_rows c.rows) && (not (has_bank "basic" c.rows) || not (has_bank "deep" c.rows)))
          "QUESTION_BANK_BOTH_BANKS_REQUIRED" (some "bank") 1
      ∷ error_if (ltb 0 fixtures && not (eqb fixtures (length c.rows)))
          "QUESTION_BANK_FIXTURE_SCOPE_MIXED" none 1
      ∷ error_if (blocked c.rows environment) "QUESTION_BANK_FIXTURE_ENVIRONMENT_BLOCKED" none 1
      ∷ [])

abbrev pub the_version : List Units → Option Units
the_version [] = none
the_version (v ∷ []) = some v
the_version (v ∷ w ∷ ws) = none

abbrev pub join : ℕ → List Units → Units
join unit [] = []
join unit (t ∷ []) = t
join unit (t ∷ u ∷ us) = t ++ unit ∷ join unit (u ∷ us)

abbrev pub concat_units : List Units → Units
concat_units [] = []
concat_units (t ∷ ts) = t ++ concat_units ts

unfoldable pub length_prefix : Platform → Units → Units
length_prefix p value = codes (decimal (length (p.encode value))) ++ 58 ∷ value

abbrev pub digest_values : ValidatedRow → List Units
digest_values r =
    r.question_id
    ∷ r.bank
    ∷ r.topic
    ∷ r.question_text
    ∷ r.purpose
    ∷ join 59 r.applicable_condition_codes
    ∷ join 59 r.inapplicable_condition_codes
    ∷ r.sensitivity
    ∷ r.source_type
    ∷ r.source_reference
    ∷ r.license_status
    ∷ r.license_reference
    ∷ codes (if r.enabled then "true" else "false")
    ∷ []

abbrev pub all_values : List ValidatedRow → List Units
all_values [] = []
all_values (r ∷ rs) = digest_values r ++ all_values rs

unfoldable pub content_digest : Platform → Units → List ValidatedRow → String
content_digest p bank_version rows =
    let sorted = sort_with (λ l r. text_le l.question_id r.question_id) rows in
    let values =
      codes question_bank_validator_version
      ∷ bank_version
      ∷ codes (decimal (length rows))
      ∷ all_values sorted in
    p.sha256 (p.encode (concat_units (map (length_prefix p) values)))

unfoldable pub failure : List ValidationError → Summary → ValidationResult
failure errors summary = record { errors = errors; ok = false; rows = []; summary = summary }

abbrev pub empty_summary : String → Summary
empty_summary source_file_digest = record {
  bank_version = none;
  content_digest = none;
  environment_scope = none;
  row_count = 0;
  source_file_digest = source_file_digest;
}

-- The last part: a failure, or the rows and their digest.
unfoldable pub conclude :
    Platform
    → List ValidationError
    → Option Units
    → Option Scope
    → List ValidatedRow
    → Summary
    → ValidationResult
conclude p [] (some version) (some scope) rows summary = record {
  errors = [];
  ok = true;
  rows = rows;
  summary = record summary { content_digest = some (content_digest p version rows) };
}
conclude p [] (some version) none rows summary = failure [] summary
conclude p [] none scope rows summary = failure [] summary
conclude p (e ∷ es) version scope rows summary = failure (stable_errors p (e ∷ es)) summary

-- The check of the rows below the header.
unfoldable pub validate_rows : Platform → String → Environment → List CsvRow → ValidationResult
validate_rows p digest environment data_rows =
    let c = check_rows data_rows unchecked in
    let scope = infer_scope c.rows environment in
    let version = the_version c.bank_versions in
    conclude p (c.errors ++ file_errors (length data_rows) environment c) version scope c.rows
      (record {
        bank_version = version;
        content_digest = none;
        environment_scope = scope;
        row_count = length data_rows;
        source_file_digest = digest;
      })

abbrev pub header_invalid : String → ValidationResult
header_invalid digest =
    failure (error_if true "QUESTION_BANK_HEADER_INVALID" none 1) (empty_summary digest)

abbrev pub validate_parsed :
    Platform → String → Environment → Result ℕ (List CsvRow) → ValidationResult
validate_parsed p digest environment (err row) =
    failure (error_if true "QUESTION_BANK_CSV_MALFORMED" none row) (empty_summary digest)
validate_parsed p digest environment (ok []) = header_invalid digest
validate_parsed p digest environment (ok (r ∷ rs)) =
    if header_matches r.fields then validate_rows p digest environment rs else header_invalid digest

abbrev pub validate_decoded : Platform → String → Environment → Option Units → ValidationResult
validate_decoded p digest environment none =
    failure (error_if true "QUESTION_BANK_ENCODING_INVALID" none 1) (empty_summary digest)
validate_decoded p digest environment (some text) =
    validate_parsed p digest environment (parse_csv text)

unfoldable pub validate_question_bank_csv : Platform → List ℕ → Environment → ValidationResult
validate_question_bank_csv p bytes environment =
    validate_decoded p (p.sha256 bytes) environment (p.decode bytes)
