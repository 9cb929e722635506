-- ===== src/QuestionBank/Tests.antt =====
-- The question bank theorems at concrete inputs.
use elder_interview_ai.Prelude.{◌≡◌, refl, String, List, [], ◌∷◌, map, some, arith}
use elder_interview_ai.Prelude.Int.{pos}
use elder_interview_ai.Prelude.Action.{ok}
use elder_interview_ai.Prelude.Text.{codes, is_space, decimal}
use elder_interview_ai.Prelude.Map.{get}
use elder_interview_ai.QuestionBank.Types.{
  Units, local, question_bank_headers, same, contains, is_known, is_word,
}
use elder_interview_ai.QuestionBank.Csv.{parse_csv}
use elder_interview_ai.QuestionBank.Validate.{Platform, validate_question_bank_csv}
use elder_interview_ai.QuestionBank.Csv.{
  read_units, read_unit, unquoted, quoted, end_record, push_record, finish,
}
use elder_interview_ai.QuestionBank.Fields.{
  header_matches, trim, trim_start, add_condition, add_conditions, field, insert_with,
  is_alphanumeric, is_identifier, is_identifier_unit, license_combination_allowed, parse_conditions,
  sort_with, split_from, text_le,
}
use elder_interview_ai.QuestionBank.Rows.{
  check_rows, add_text, applicable, check_row, condition_errors, identifier_errors, inapplicable,
  license_errors, row_errors, validated_row, vocabulary_errors,
}
use elder_interview_ai.QuestionBank.Validate.{
  validate_rows, conclude, content_digest, failure, file_errors, infer_scope, length_prefix,
  stable_errors,
}
use elder_interview_ai.QuestionBank.Rows.{no_errors}
use elder_interview_ai.QuestionBank.Explained.{validate_question_bank_csv-explained}
use elder_interview_ai.QuestionBank.RoundTrip.{written, numbered, parse_csv-written}
use elder_interview_ai.QuestionBank.Accepted.{IsAccepted, validate_question_bank_csv-IsAccepted}

-- Two records; the first one has a comma and a quote, and a field of two lines.
abbrev records : List (List Units)
records = ((97 ∷ 44 ∷ 34 ∷ []) ∷ (98 ∷ 10 ∷ 99 ∷ []) ∷ []) ∷ ([] ∷ []) ∷ []

parse_csv-written_example : parse_csv (written records) ≡ ok (numbered 1 records)
parse_csv-written_example = parse_csv-written records (ground arith)

abbrev question : String → String → List Units
question id bank = map codes (
    id ∷ bank ∷ "school" ∷ "Where did you go to school?" ∷ "detail" ∷ "stage.rapport" ∷ "" ∷ "low"
    ∷ "project_original" ∷ "ref" ∷ "project_original" ∷ "lic" ∷ "v1" ∷ "true" ∷ [])

abbrev file : Units
file = written (map codes question_bank_headers ∷ question "q1" "basic" ∷ question "q2" "deep" ∷ [])

abbrev platform : Platform
platform = record {
  sha256 = λ _. "digest";
  decode = λ bytes. some bytes;
  encode = λ units. units;
  locale_compare = λ a b. pos 0;
}

validate_question_bank_csv-IsAccepted_example :
    IsAccepted (validate_question_bank_csv platform file local)
unfolding validate_question_bank_csv parse_csv same contains is_known is_word is_space get decimal
    read_units read_unit unquoted quoted end_record push_record finish header_matches trim
    trim_start add_condition add_conditions field insert_with is_alphanumeric is_identifier
    is_identifier_unit license_combination_allowed parse_conditions sort_with split_from text_le
    check_rows add_text applicable check_row condition_errors identifier_errors inapplicable
    license_errors row_errors validated_row vocabulary_errors validate_rows conclude content_digest
    failure file_errors infer_scope length_prefix stable_errors
validate_question_bank_csv-IsAccepted_example =
    validate_question_bank_csv-IsAccepted platform file local refl

-- Two questions with one identifier.
abbrev repeated : Units
repeated =
    written (map codes question_bank_headers ∷ question "q1" "basic" ∷ question "q1" "deep" ∷ [])

validate_question_bank_csv-explained_example :
    no_errors (validate_question_bank_csv platform repeated local).errors
    ≡ (validate_question_bank_csv platform repeated local).ok
validate_question_bank_csv-explained_example =
    validate_question_bank_csv-explained platform repeated local
