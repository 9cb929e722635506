-- ===== src/QuestionBank/Accepted.antt =====
-- What a file that `validateQuestionBankCsv` of apps/api/src/question-bank/question-bank.csv.ts
-- accepts is like.
use elder_interview_ai.Prelude.{
  ℕ, ◌≡◌, refl, sym, ap, ◌∙◌, subst, Bool, true, false, not, ◌&&◌, ◌||◌, String, List, [], ◌∷◌,
  ◌++◌, Option, none, some, arith, if◌then◌else◌, ltb, eqb, length, keep, All,
}
use elder_interview_ai.Prelude.Action.{Result, ok, err}
use elder_interview_ai.QuestionBank.Types.{
  Units, Environment, Scope, ValidationError, ValidatedRow, Summary, ValidationResult, contains,
}
use elder_interview_ai.QuestionBank.Csv.{CsvRow, parse_csv}
use elder_interview_ai.QuestionBank.Fields.{header_matches}
use elder_interview_ai.QuestionBank.Rows.{Checked, error_if, no_errors, check_rows, unchecked}
use elder_interview_ai.QuestionBank.Validate.{
  Platform, is_fixture, no_rows, has_bank, file_errors, the_version, conclude, failure,
  header_invalid, validate_rows, validate_parsed, validate_decoded, validate_question_bank_csv,
}
use elder_interview_ai.QuestionBank.RowChecks.{IsValidRow}
use elder_interview_ai.QuestionBank.Loop.{
  AreDistinct, IsSeen, IsChecked, errors-append, check_rows-IsChecked,
}

-- An accepted file: a row for each record below the header, all of them valid, no identifier twice,
-- one bank version, both banks, and either all rows or none of them are fixtures.
pub record IsAccepted (r : ValidationResult) : Type 0 where
  pub complete : length r.rows ≡ r.summary.row_count
  pub valid : All IsValidRow r.rows
  pub distinct : AreDistinct r.rows
  pub version :
      (w : Units) × (r.summary.bank_version ≡ some w)
      × All (λ (v : ValidatedRow). contains v.bank_version (w ∷ []) ≡ true) r.rows
  pub basic : has_bank "basic" r.rows ≡ true
  pub deep : has_bank "deep" r.rows ≡ true
  pub fixtures :
      (ltb 0 (length (keep is_fixture r.rows))
        && not (eqb (length (keep is_fixture r.rows)) (length r.rows)))
      ≡ false

passes :
    (p : Platform) (es : List ValidationError) (version : Option Units) (scope : Option Scope)
    (rows : List ValidatedRow) (summary : Summary)
    → (conclude p es version scope rows summary).ok ≡ true
    → (no_errors es ≡ true)
      × ((w : Units) × (version ≡ some w))
      × ((conclude p es version scope rows summary).rows ≡ rows)
      × ((conclude p es version scope rows summary).summary.row_count ≡ summary.row_count)
      × ((conclude p es version scope rows summary).summary.bank_version ≡ summary.bank_version)
unfolding conclude failure
passes p [] (some w) (some s) rows summary h = (refl, (w, refl), refl, refl, refl)
passes p [] (some w) none rows summary h = cc
passes p [] none scope rows summary h = cc
passes p (e ∷ es) version scope rows summary h = cc

single : (vs : List Units) (w : Units) → the_version vs ≡ some w → vs ≡ w ∷ []
single [] w h = cc
single (v ∷ []) w h = ground arith
single (v ∷ u ∷ us) w h = cc

All-versions :
    (vs : List Units) (w : Units) (rows : List ValidatedRow) (ids : List Units)
    → vs ≡ w ∷ []
    → All (IsSeen ids vs) rows
    → All (λ (v : ValidatedRow). contains v.bank_version (w ∷ []) ≡ true) rows
All-versions vs w [] ids e h = tt
All-versions vs w (r ∷ rs) ids e ((p, q), h) = (
  subst (λ (us : List Units). contains r.bank_version us ≡ true) e q,
  All-versions vs w rs ids e h,
)

pub error_if-passed :
    (b : Bool) (code : String) (column : Option String) (row : ℕ) (rest : List ValidationError)
    → no_errors (error_if b code column row ++ rest) ≡ true
    → (b ≡ false) × (no_errors rest ≡ true)
error_if-passed true code column row rest h = cc
error_if-passed false code column row rest h = (refl, h)

-- What the checks of the whole file say when they find nothing.
record IsClean (count : ℕ) (rows : List ValidatedRow) : Type 0 where
  filled : eqb count 0 ≡ false
  banks :
      (not (no_rows rows) && (not (has_bank "basic" rows) || not (has_bank "deep" rows))) ≡ false
  fixtures :
      (ltb 0 (length (keep is_fixture rows))
        && not (eqb (length (keep is_fixture rows)) (length rows)))
      ≡ false

clean :
    (count : ℕ) (environment : Environment) (c : Checked)
    → no_errors (file_errors count environment c) ≡ true
    → IsClean count c.rows
unfolding file_errors
clean count environment c h =
    let a = error_if-passed (eqb count 0) _ _ 2 _ h in
    let b = error_if-passed (ltb 1 (length c.bank_versions)) _ _ 1 _ a.1 in
    let banks =
      not (no_rows c.rows) && (not (has_bank "basic" c.rows) || not (has_bank "deep" c.rows)) in
    let d = error_if-passed banks _ _ 1 _ b.1 in
    let mixed =
      ltb 0 (length (keep is_fixture c.rows))
      && not (eqb (length (keep is_fixture c.rows)) (length c.rows)) in
    let e = error_if-passed mixed _ _ 1 _ d.1 in
    record { filled = a.0; banks = d.0; fixtures = e.0 }

pub some_rows : (rows : List ValidatedRow) → eqb (length rows) 0 ≡ false → no_rows rows ≡ false
some_rows [] h = ground arith
some_rows (r ∷ rs) h = refl

pub unchecked-IsChecked : IsChecked 0 unchecked
unchecked-IsChecked = record { valid = tt; seen = tt; distinct = tt; complete = λ h. refl }

validate_rows-IsAccepted :
    (p : Platform) (digest : String) (environment : Environment) (rs : List CsvRow)
    → (validate_rows p digest environment rs).ok ≡ true
    → IsAccepted (validate_rows p digest environment rs)
unfolding validate_rows
validate_rows-IsAccepted p digest environment rs h =
    let c = check_rows rs unchecked in
    let result = validate_rows p digest environment rs in
    let (none_found, (w, one), rows, count, version) = passes p _ _ _ _ _ h in
    let both = errors-append c.errors (file_errors (length rs) environment c) in
    let e : no_errors c.errors ≡ true = ground arith in
    let f : no_errors (file_errors (length rs) environment c) ≡ true = ground arith in
    let k = check_rows-IsChecked rs 0 unchecked unchecked-IsChecked in
    let n : length c.rows ≡ length rs = k.complete e ∙ omega arith in
    let y = clean (length rs) environment c f in
    let filled = some_rows c.rows (ap (λ (m : ℕ). eqb m 0) n ∙ y.filled) in
    let back = λ (Q : List ValidatedRow → Type 0) (q : Q c.rows). subst Q (sym rows) q in
    record {
      complete = ap length rows ∙ (n ∙ sym count);
      valid = back (All IsValidRow) k.valid;
      distinct = back AreDistinct k.distinct;
      version = (
        w,
        version ∙ one,
        back (All (λ (v : ValidatedRow). contains v.bank_version (w ∷ []) ≡ true)) (
            All-versions c.bank_versions w c.rows c.question_ids (single c.bank_versions w one)
              k.seen),
      );
      basic = back (λ rows. has_bank "basic" rows ≡ true) (ground (arith, y.banks, filled));
      deep = back (λ rows. has_bank "deep" rows ≡ true) (ground (arith, y.banks, filled));
      fixtures =
          back
            (λ rows.
              (ltb 0 (length (keep is_fixture rows))
                && not (eqb (length (keep is_fixture rows)) (length rows)))
              ≡ false)
            y.fixtures;
    }

by_header :
    (p : Platform) (digest : String) (environment : Environment) (rs : List CsvRow) (b : Bool)
    → (if b then validate_rows p digest environment rs else header_invalid digest).ok ≡ true
    → IsAccepted (if b then validate_rows p digest environment rs else header_invalid digest)
unfolding failure
by_header p digest environment rs true h = validate_rows-IsAccepted p digest environment rs h
by_header p digest environment rs false h = cc

parsed-IsAccepted :
    (p : Platform) (digest : String) (environment : Environment) (o : Result ℕ (List CsvRow))
    → (validate_parsed p digest environment o).ok ≡ true
    → IsAccepted (validate_parsed p digest environment o)
unfolding failure
parsed-IsAccepted p digest environment (err row) h = cc
parsed-IsAccepted p digest environment (ok []) h = cc
parsed-IsAccepted p digest environment (ok (r ∷ rs)) h =
    by_header p digest environment rs (header_matches r.fields) h

decoded-IsAccepted :
    (p : Platform) (digest : String) (environment : Environment) (o : Option Units)
    → (validate_decoded p digest environment o).ok ≡ true
    → IsAccepted (validate_decoded p digest environment o)
unfolding failure
decoded-IsAccepted p digest environment none h = cc
decoded-IsAccepted p digest environment (some text) h =
    parsed-IsAccepted p digest environment (parse_csv text) h

-- A file that the check accepts has a valid row for each record below its header, no identifier
-- twice, one bank version, both banks, and is made of fixtures only or of none.
pub validate_question_bank_csv-IsAccepted :
    (p : Platform) (bytes : List ℕ) (environment : Environment)
    → (validate_question_bank_csv p bytes environment).ok ≡ true
    → IsAccepted (validate_question_bank_csv p bytes environment)
unfolding validate_question_bank_csv
validate_question_bank_csv-IsAccepted p bytes environment h =
    decoded-IsAccepted p (p.sha256 bytes) environment (p.decode bytes) h
