-- ===== src/QuestionBank/Explained.antt =====
-- A file that `validateQuestionBankCsv` of apps/api/src/question-bank/question-bank.csv.ts refuses is
-- refused for a reason that the result gives.
use elder_interview_ai.Prelude.{
  ℕ, ◌≡◌, refl, ap, ◌∙◌, Bool, true, false, not, ◌&&◌, ◌||◌, String, List, [], ◌∷◌, ◌++◌, Option,
  none, some, arith, if◌then◌else◌, ltb, eqb, length, all, keep, All,
}
use elder_interview_ai.Prelude.Action.{Result, ok, err}
use elder_interview_ai.QuestionBank.Types.{
  Units, Environment, Scope, product, internal_demo, ValidationError, ValidatedRow, Summary,
  contains,
}
use elder_interview_ai.QuestionBank.Csv.{CsvRow, parse_csv}
use elder_interview_ai.QuestionBank.Fields.{header_matches, insert_with, sort_with}
use elder_interview_ai.QuestionBank.Rows.{Checked, no_errors, check_rows, unchecked}
use elder_interview_ai.QuestionBank.Validate.{
  Platform, error_le, is_fixture, no_rows, has_bank, blocked, file_errors, infer_scope, the_version,
  conclude, failure, stable_errors, header_invalid, validate_rows, validate_parsed,
  validate_decoded, validate_question_bank_csv,
}
use elder_interview_ai.QuestionBank.Loop.{IsSeen, check_rows-IsChecked, errors-append}
use elder_interview_ai.QuestionBank.Accepted.{unchecked-IsChecked, error_if-passed, some_rows}

insert_with-errors :
    (le : ValidationError → ValidationError → Bool) (e : ValidationError)
    (es : List ValidationError)
    → no_errors (insert_with le e es) ≡ false
unfolding insert_with
insert_with-errors le e [] = refl
insert_with-errors le e (x ∷ xs) = ground arith

stable_errors-errors :
    (p : Platform) (e : ValidationError) (es : List ValidationError)
    → no_errors (stable_errors p (e ∷ es)) ≡ false
unfolding stable_errors sort_with
stable_errors-errors p e es = insert_with-errors (error_le p) e (sort_with (error_le p) es)

none-some : {A : Type 0} (a : A) → ¬ (Option.none ≡ some a)
none-some a e = cc

concluded :
    (p : Platform) (es : List ValidationError) (version : Option Units) (scope : Option Scope)
    (rows : List ValidatedRow) (summary : Summary)
    → (no_errors es ≡ true → ((w : Units) × (version ≡ some w)) × ((c : Scope) × (scope ≡ some c)))
    → no_errors (conclude p es version scope rows summary).errors
      ≡ (conclude p es version scope rows summary).ok
unfolding conclude failure
concluded p [] (some w) (some c) rows summary h = refl
concluded p [] (some w) none rows summary h = absurd (none-some _ (h refl).1.1)
concluded p [] none scope rows summary h = absurd (none-some _ (h refl).0.1)
concluded p (e ∷ es) version scope rows summary h = stable_errors-errors p e es

one_version :
    (vs : List Units) (rows : List ValidatedRow) (ids : List Units)
    → no_rows rows ≡ false
    → All (IsSeen ids vs) rows
    → ltb 1 (length vs) ≡ false
    → (w : Units) × (the_version vs ≡ some w)
unfolding contains
one_version [] [] ids n h k = cc
one_version [] (r ∷ rows) ids n ((p, q), h) k = cc
one_version (v ∷ []) rows ids n h k = (v, refl)
one_version (v ∷ w ∷ ws) rows ids n h k = ground arith

a_scope :
    (rows : List ValidatedRow) (environment : Environment)
    → no_rows rows ≡ false
    → blocked rows environment ≡ false
    → (c : Scope) × (infer_scope rows environment ≡ some c)
unfolding infer_scope
a_scope rows environment n b =
    (if all is_fixture rows then internal_demo else product, ground arith)

-- The tests of `file_errors` that the version and the scope hang on.
passed :
    (count : ℕ) (environment : Environment) (c : Checked)
    → no_errors (file_errors count environment c) ≡ true
    → (eqb count 0 ≡ false)
      × (ltb 1 (length c.bank_versions) ≡ false)
      × (blocked c.rows environment ≡ false)
unfolding file_errors
passed count environment c h =
    let a = error_if-passed (eqb count 0) _ _ 2 _ h in
    let b = error_if-passed (ltb 1 (length c.bank_versions)) _ _ 1 _ a.1 in
    let banks =
      not (no_rows c.rows) && (not (has_bank "basic" c.rows) || not (has_bank "deep" c.rows)) in
    let d = error_if-passed banks _ _ 1 _ b.1 in
    let mixed =
      ltb 0 (length (keep is_fixture c.rows))
      && not (eqb (length (keep is_fixture c.rows)) (length c.rows)) in
    let e = error_if-passed mixed _ _ 1 _ d.1 in
    let f = error_if-passed (blocked c.rows environment) _ _ 1 _ e.1 in (a.0, b.0, f.0)

validate_rows-explained :
    (p : Platform) (digest : String) (environment : Environment) (rs : List CsvRow)
    → no_errors (validate_rows p digest environment rs).errors
      ≡ (validate_rows p digest environment rs).ok
unfolding validate_rows
validate_rows-explained p digest environment rs =
    let c = check_rows rs unchecked in
    let more = file_errors (length rs) environment c in
    let both = errors-append c.errors more in
    let k = check_rows-IsChecked rs 0 unchecked unchecked-IsChecked in
    concluded p (c.errors ++ more) (the_version c.bank_versions) (infer_scope c.rows environment)
      c.rows _
      (λ h.
        let e : no_errors c.errors ≡ true = ground arith in
        let f : no_errors more ≡ true = ground arith in
        let (count, versions, free) = passed (length rs) environment c f in
        let n : length c.rows ≡ length rs = k.complete e ∙ omega arith in
        let filled = some_rows c.rows (ap (λ (m : ℕ). eqb m 0) n ∙ count) in
        (
          one_version c.bank_versions c.rows c.question_ids filled k.seen versions,
          a_scope c.rows environment filled free,
        ))

by_header :
    (p : Platform) (digest : String) (environment : Environment) (rs : List CsvRow) (b : Bool)
    → no_errors (if b then validate_rows p digest environment rs else header_invalid digest).errors
      ≡ (if b then validate_rows p digest environment rs else header_invalid digest).ok
unfolding failure
by_header p digest environment rs true = validate_rows-explained p digest environment rs
by_header p digest environment rs false = refl

parsed :
    (p : Platform) (digest : String) (environment : Environment) (o : Result ℕ (List CsvRow))
    → no_errors (validate_parsed p digest environment o).errors
      ≡ (validate_parsed p digest environment o).ok
unfolding failure
parsed p digest environment (err row) = refl
parsed p digest environment (ok []) = refl
parsed p digest environment (ok (r ∷ rs)) =
    by_header p digest environment rs (header_matches r.fields)

decoded :
    (p : Platform) (digest : String) (environment : Environment) (o : Option Units)
    → no_errors (validate_decoded p digest environment o).errors
      ≡ (validate_decoded p digest environment o).ok
unfolding failure
decoded p digest environment none = refl
decoded p digest environment (some text) = parsed p digest environment (parse_csv text)

-- The result of the check is positive exactly if it lists no error.
pub validate_question_bank_csv-explained :
    (p : Platform) (bytes : List ℕ) (environment : Environment)
    → no_errors (validate_question_bank_csv p bytes environment).errors
      ≡ (validate_question_bank_csv p bytes environment).ok
unfolding validate_question_bank_csv
validate_question_bank_csv-explained p bytes environment =
    decoded p (p.sha256 bytes) environment (p.decode bytes)
