-- ===== src/QuestionBank/RowChecks.antt =====
-- What a row that passes the checks of apps/api/src/question-bank/question-bank.csv.ts is like.
use elder_interview_ai.Prelude.{
  ℕ, ◌≡◌, refl, Bool, true, false, not, ◌&&◌, ◌||◌, String, List, [], ◌∷◌, ◌++◌, Option, arith, ltb,
  leb, length, any,
}
use elder_interview_ai.QuestionBank.Types.{
  Units, question_purposes, ValidationError, ValidatedRow, contains, is_known,
}
use elder_interview_ai.QuestionBank.Csv.{CsvRow}
use elder_interview_ai.QuestionBank.Fields.{
  is_empty, field, is_identifier, license_combination_allowed,
}
use elder_interview_ai.QuestionBank.Rows.{
  known_banks, known_sensitivities, known_sources, known_licenses, error_if, no_errors,
  required_errors, required_columns, unknown_if, identifier_errors, vocabulary_errors, applicable,
  inapplicable, contradictory, condition_errors, license_errors, row_errors, validated_row,
}

-- A row in the terms of the format: an identifier, a known word in each column with a vocabulary,
-- a licence that goes with the source, texts within their bounds, no contradictory condition.
pub record IsValidRow (v : ValidatedRow) : Type 0 where
  pub identifier : is_identifier v.question_id ≡ true
  pub bank : is_known known_banks v.bank ≡ true
  pub purpose : is_known question_purposes v.purpose ≡ true
  pub sensitivity : is_known known_sensitivities v.sensitivity ≡ true
  pub source : is_known known_sources v.source_type ≡ true
  pub license : is_known known_licenses v.license_status ≡ true
  pub combination : license_combination_allowed v.source_type v.license_status ≡ true
  pub topic : leb (length v.topic) 120 ≡ true
  pub question_text : leb (length v.question_text) 2000 ≡ true
  pub version : is_empty v.bank_version ≡ false
  pub conditions :
      any (λ t. contains t v.inapplicable_condition_codes) v.applicable_condition_codes ≡ false

no_errors-append :
    (xs ys : List ValidationError) → no_errors (xs ++ ys) ≡ no_errors xs && no_errors ys
no_errors-append [] ys = refl
no_errors-append (x ∷ xs) ys = refl

no_errors-error_if :
    (b : Bool) (code : String) (column : Option String) (row : ℕ)
    → no_errors (error_if b code column row) ≡ not b
no_errors-error_if true code column row = refl
no_errors-error_if false code column row = refl

-- Both parts of a list without errors.
halves :
    (xs ys : List ValidationError)
    → no_errors (xs ++ ys) ≡ true
    → (no_errors xs ≡ true) × (no_errors ys ≡ true)
halves [] ys h = (refl, h)
halves (x ∷ xs) ys h = cc

passed :
    (b : Bool) (code : String) (column : Option String) (row : ℕ) (rest : List ValidationError)
    → no_errors (error_if b code column row ++ rest) ≡ true
    → (b ≡ false) × (no_errors rest ≡ true)
passed true code column row rest h = cc
passed false code column row rest h = (refl, h)

known_of_passed :
    (words : List String) (t : Units)
    → unknown_if words t ≡ false
    → is_empty t ≡ false
    → is_known words t ≡ true
known_of_passed words t h k = ground arith

-- The values of the vocabularies' columns.
record IsFilled (r : CsvRow) : Type 0 where
  id : is_empty (field "question_id" r.fields) ≡ false
  bank : is_empty (field "bank" r.fields) ≡ false
  purpose : is_empty (field "purpose" r.fields) ≡ false
  sensitivity : is_empty (field "sensitivity" r.fields) ≡ false
  source : is_empty (field "source_type" r.fields) ≡ false
  license : is_empty (field "license_status" r.fields) ≡ false
  version : is_empty (field "bank_version" r.fields) ≡ false

filled : (r : CsvRow) → no_errors (required_errors required_columns r) ≡ true → IsFilled r
filled r h =
    let a = passed (is_empty (field "question_id" r.fields)) _ _ r.row _ h in
    let b = passed (is_empty (field "bank" r.fields)) _ _ r.row _ a.1 in
    let c = passed (is_empty (field "topic" r.fields)) _ _ r.row _ b.1 in
    let d = passed (is_empty (field "question_text" r.fields)) _ _ r.row _ c.1 in
    let e = passed (is_empty (field "purpose" r.fields)) _ _ r.row _ d.1 in
    let f = passed (is_empty (field "sensitivity" r.fields)) _ _ r.row _ e.1 in
    let g = passed (is_empty (field "source_type" r.fields)) _ _ r.row _ f.1 in
    let i = passed (is_empty (field "source_reference" r.fields)) _ _ r.row _ g.1 in
    let j = passed (is_empty (field "license_status" r.fields)) _ _ r.row _ i.1 in
    let k = passed (is_empty (field "license_reference" r.fields)) _ _ r.row _ j.1 in
    let l = passed (is_empty (field "bank_version" r.fields)) _ _ r.row _ k.1 in
    record {
      id = a.0;
      bank = b.0;
      purpose = e.0;
      sensitivity = f.0;
      source = g.0;
      license = j.0;
      version = l.0;
    }

record IsWorded (r : CsvRow) : Type 0 where
  bank : unknown_if known_banks (field "bank" r.fields) ≡ false
  topic : leb (length (field "topic" r.fields)) 120 ≡ true
  question_text : leb (length (field "question_text" r.fields)) 2000 ≡ true
  purpose : unknown_if question_purposes (field "purpose" r.fields) ≡ false
  sensitivity : unknown_if known_sensitivities (field "sensitivity" r.fields) ≡ false
  source : unknown_if known_sources (field "source_type" r.fields) ≡ false
  license : unknown_if known_licenses (field "license_status" r.fields) ≡ false

within :
    (a b c : ℕ)
    → ((ltb 120 a || ltb 2000 b) || ltb 80 c) ≡ false
    → (leb a 120 ≡ true) × (leb b 2000 ≡ true)
within a b c h = (ground arith, ground arith)

worded : (r : CsvRow) → no_errors (vocabulary_errors r) ≡ true → IsWorded r
unfolding vocabulary_errors
worded r h =
    let a = passed (unknown_if known_banks (field "bank" r.fields)) _ _ r.row _ h in
    let b =
      passed
        (ltb 120 (length (field "topic" r.fields))
          || ltb 2000 (length (field "question_text" r.fields))
          || ltb 80 (length (field "bank_version" r.fields)))
        _ _ r.row _ a.1 in
    let c = passed (unknown_if question_purposes (field "purpose" r.fields)) _ _ r.row _ b.1 in
    let d =
      passed (unknown_if known_sensitivities (field "sensitivity" r.fields)) _ _ r.row _ c.1 in
    let e = passed (unknown_if known_sources (field "source_type" r.fields)) _ _ r.row _ d.1 in
    let f = passed (unknown_if known_licenses (field "license_status" r.fields)) _ _ r.row _ e.1 in
    let (short, shorter) =
      within (length (field "topic" r.fields)) (length (field "question_text" r.fields))
        (length (field "bank_version" r.fields)) b.0 in
    record {
      bank = a.0;
      topic = short;
      question_text = shorter;
      purpose = c.0;
      sensitivity = d.0;
      source = e.0;
      license = f.0;
    }

identified :
    (id : Units) (seen : List Units) (row : ℕ)
    → no_errors (identifier_errors id seen row) ≡ true
    → is_empty id ≡ false
    → (is_identifier id ≡ true) × (contains id seen ≡ false)
unfolding identifier_errors
identified id seen row h k = ground (arith, no_errors-error_if (contains id seen))

uncontradicted :
    (r : CsvRow)
    → no_errors (condition_errors r) ≡ true
    → contradictory (applicable r) (inapplicable r) ≡ false
unfolding condition_errors
uncontradicted r h =
    let a = halves (applicable r).errors _ h in
    let b = halves (inapplicable r).errors _ a.1 in
    (passed (contradictory (applicable r) (inapplicable r)) _ _ r.row _ b.1).0

licensed :
    (r : CsvRow)
    → no_errors (license_errors r) ≡ true
    → is_known known_sources (field "source_type" r.fields) ≡ true
    → is_known known_licenses (field "license_status" r.fields) ≡ true
    → license_combination_allowed (field "source_type" r.fields) (field "license_status" r.fields)
      ≡ true
unfolding license_errors
licensed r h s l = ground (
  arith,
  no_errors-error_if (
      is_known known_sources (field "source_type" r.fields)
      && is_known known_licenses (field "license_status" r.fields)
      && not (
          license_combination_allowed (field "source_type" r.fields)
            (field "license_status" r.fields))),
)

-- A row without errors is valid, and no row before it has its identifier.
pub row_errors-IsValidRow :
    (seen : List Units) (r : CsvRow)
    → no_errors (row_errors seen r) ≡ true
    → IsValidRow (validated_row r) × (contains (field "question_id" r.fields) seen ≡ false)
unfolding row_errors validated_row
row_errors-IsValidRow seen r h =
    let a = halves (required_errors required_columns r) _ h in
    let b = halves (identifier_errors (field "question_id" r.fields) seen r.row) _ a.1 in
    let c = halves (vocabulary_errors r) _ b.1 in
    let d = halves (condition_errors r) _ c.1 in
    let x = filled r a.0 in
    let y = worded r c.0 in
    let (id, new) = identified (field "question_id" r.fields) seen r.row b.0 x.id in
    let source = known_of_passed known_sources _ y.source x.source in
    let license = known_of_passed known_licenses _ y.license x.license in
    (
      record {
        identifier = id;
        bank = known_of_passed known_banks _ y.bank x.bank;
        purpose = known_of_passed question_purposes _ y.purpose x.purpose;
        sensitivity = known_of_passed known_sensitivities _ y.sensitivity x.sensitivity;
        source = source;
        license = license;
        combination = licensed r (halves (license_errors r) _ d.1).0 source license;
        topic = y.topic;
        question_text = y.question_text;
        version = x.version;
        conditions = uncontradicted r d.0;
      },
      new,
    )
