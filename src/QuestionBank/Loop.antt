-- ===== src/QuestionBank/Loop.antt =====
-- What the loop of `validateQuestionBankCsv` of apps/api/src/question-bank/question-bank.csv.ts has
-- found after any rows.
use elder_interview_ai.Prelude.{
  ℕ, suc, ◌+◌, ◌≡◌, refl, sym, subst, Bool, true, false, ◌&&◌, ◌||◌, List, [], ◌∷◌, ◌++◌, none,
  arith, if◌then◌else◌, length, length-append, All, All-append,
}
use elder_interview_ai.QuestionBank.Types.{Units, ValidationError, ValidatedRow, same, contains}
use elder_interview_ai.QuestionBank.Csv.{CsvRow}
use elder_interview_ai.QuestionBank.Fields.{is_empty, is_identifier, field}
use elder_interview_ai.QuestionBank.Rows.{
  Checked, error_if, no_errors, add_text, row_errors, validated_row, columns_fit, check_row,
  check_rows,
}
use elder_interview_ai.QuestionBank.RowChecks.{IsValidRow, row_errors-IsValidRow}

same_refl : (t : Units) → same t t ≡ true
unfolding same
same_refl [] = refl
same_refl (c ∷ cs) = ground (arith, same_refl cs)

eq_of_same : (a b : Units) → same a b ≡ true → a ≡ b
unfolding same
eq_of_same [] [] h = refl
eq_of_same [] (d ∷ ds) h = cc
eq_of_same (c ∷ cs) [] h = cc
eq_of_same (c ∷ cs) (d ∷ ds) h = ground (arith, eq_of_same cs ds)

contains-snoc :
    (t u : Units) (ts : List Units) → contains t (ts ++ u ∷ []) ≡ (contains t ts || same t u)
unfolding contains
contains-snoc t u [] = ground arith
contains-snoc t u (x ∷ ts) = ground (arith, contains-snoc t u ts)

contains-add_text :
    (t u : Units) (ts : List Units) → contains t ts ≡ true → contains t (add_text u ts) ≡ true
unfolding add_text
contains-add_text t u ts h = ground (arith, contains-snoc t u ts)

added-contains :
    (t : Units) (ts : List Units) → is_empty t ≡ false → contains t (add_text t ts) ≡ true
unfolding add_text
added-contains t ts h = ground (arith, contains-snoc t t ts, same_refl t)

-- No two rows have the same identifier.
abbrev pub AreDistinct : List ValidatedRow → Type 0
AreDistinct [] = Unit
AreDistinct (v ∷ vs) =
    All (λ (w : ValidatedRow). same w.question_id v.question_id ≡ false) vs × AreDistinct vs

AreDistinct-snoc :
    (vs : List ValidatedRow) (new : ValidatedRow)
    → AreDistinct vs
    → All (λ (v : ValidatedRow). same new.question_id v.question_id ≡ false) vs
    → AreDistinct (vs ++ new ∷ [])
AreDistinct-snoc [] new d h = (tt, tt)
AreDistinct-snoc (v ∷ vs) new d h = (
  All-append (λ (w : ValidatedRow). same w.question_id v.question_id ≡ false) vs (new ∷ []) d.0
      (h.0, tt),
  AreDistinct-snoc vs new d.1 h.1,
)

abbrev pub IsSeen : List Units → List Units → ValidatedRow → Type 0
IsSeen ids versions v =
    (contains v.question_id ids ≡ true) × (contains v.bank_version versions ≡ true)

-- What holds after any rows; `n` is their number.
pub record IsChecked (n : ℕ) (c : Checked) : Type 0 where
  pub valid : All IsValidRow c.rows
  pub seen : All (IsSeen c.question_ids c.bank_versions) c.rows
  pub distinct : AreDistinct c.rows
  pub complete : no_errors c.errors ≡ true → length c.rows ≡ n

All-IsSeen :
    (id version : Units) (ids versions : List Units) (vs : List ValidatedRow)
    → All (IsSeen ids versions) vs
    → All (IsSeen (add_text id ids) (add_text version versions)) vs
All-IsSeen id version ids versions [] h = tt
All-IsSeen id version ids versions (v ∷ vs) ((p, q), h) = (
  (contains-add_text v.question_id id ids p, contains-add_text v.bank_version version versions q),
  All-IsSeen id version ids versions vs h,
)

All-new :
    (id : Units) (ids versions : List Units) (vs : List ValidatedRow)
    → contains id ids ≡ false
    → All (IsSeen ids versions) vs
    → All (λ (v : ValidatedRow). same id v.question_id ≡ false) vs
All-new id ids versions [] n h = tt
All-new id ids versions (v ∷ vs) n ((p, q), h) =
    (ground (arith, eq_of_same id v.question_id), All-new id ids versions vs n h)

named : (t : Units) → is_identifier t ≡ true → is_empty t ≡ false
unfolding is_identifier
named [] h = sym h
named (c ∷ cs) h = refl

pub errors-append :
    (xs ys : List ValidationError) → no_errors (xs ++ ys) ≡ (no_errors xs && no_errors ys)
errors-append [] ys = refl
errors-append (x ∷ xs) ys = refl

refused-IsChecked :
    (n : ℕ) (r : CsvRow) (c : Checked)
    → no_errors (row_errors c.question_ids r) ≡ false
    → IsChecked n c
    → IsChecked (suc n) (record {
      errors = c.errors ++ row_errors c.question_ids r;
      rows = c.rows;
      question_ids = add_text (field "question_id" r.fields) c.question_ids;
      bank_versions = add_text (field "bank_version" r.fields) c.bank_versions;
    })
refused-IsChecked n r c e k = record {
  valid = k.valid;
  seen =
      All-IsSeen (field "question_id" r.fields) (field "bank_version" r.fields) c.question_ids
        c.bank_versions c.rows k.seen;
  distinct = k.distinct;
  complete = λ h. ground (arith, errors-append c.errors (row_errors c.question_ids r));
}

accepted-IsChecked :
    (n : ℕ) (r : CsvRow) (c : Checked)
    → no_errors (row_errors c.question_ids r) ≡ true
    → IsChecked n c
    → IsChecked (suc n) (record {
      errors = c.errors ++ row_errors c.question_ids r;
      rows = c.rows ++ validated_row r ∷ [];
      question_ids = add_text (field "question_id" r.fields) c.question_ids;
      bank_versions = add_text (field "bank_version" r.fields) c.bank_versions;
    })
unfolding validated_row
accepted-IsChecked n r c e k =
    let (v, new) = row_errors-IsValidRow c.question_ids r e in
    let id = field "question_id" r.fields in
    let version = field "bank_version" r.fields in
    record {
      valid = All-append IsValidRow c.rows (validated_row r ∷ []) k.valid (v, tt);
      seen =
          All-append (IsSeen (add_text id c.question_ids) (add_text version c.bank_versions)) c.rows
            (validated_row r ∷ [])
            (All-IsSeen id version c.question_ids c.bank_versions c.rows k.seen)
            (
              (
                added-contains id c.question_ids (named id v.identifier),
                added-contains version c.bank_versions v.version,
              ),
              tt,
            );
      distinct =
          AreDistinct-snoc c.rows (validated_row r) k.distinct
            (All-new id c.question_ids c.bank_versions c.rows new k.seen);
      complete = λ h. ground (
        arith,
        k.complete,
        errors-append c.errors (row_errors c.question_ids r),
        length-append c.rows (validated_row r ∷ []),
      );
    }

decided-IsChecked :
    (n : ℕ) (r : CsvRow) (c : Checked) (fits good : Bool)
    → no_errors (row_errors c.question_ids r) ≡ good
    → IsChecked n c
    → IsChecked (suc n) (
        if fits
        then record {
          errors = c.errors ++ row_errors c.question_ids r;
          rows = if good then c.rows ++ validated_row r ∷ [] else c.rows;
          question_ids = add_text (field "question_id" r.fields) c.question_ids;
          bank_versions = add_text (field "bank_version" r.fields) c.bank_versions;
        }
        else record c {
          errors = c.errors ++ error_if true "QUESTION_BANK_ROW_COLUMN_COUNT" none r.row;
        })
decided-IsChecked n r c false good e k = record {
  valid = k.valid;
  seen = k.seen;
  distinct = k.distinct;
  complete = λ h.
      ground
        (arith, errors-append c.errors (error_if true "QUESTION_BANK_ROW_COLUMN_COUNT" none r.row));
}
decided-IsChecked n r c true false e k = refused-IsChecked n r c e k
decided-IsChecked n r c true true e k = accepted-IsChecked n r c e k

check_row-IsChecked :
    (n : ℕ) (r : CsvRow) (c : Checked) → IsChecked n c → IsChecked (suc n) (check_row r c)
unfolding check_row
check_row-IsChecked n r c k =
    decided-IsChecked n r c (columns_fit r) (no_errors (row_errors c.question_ids r)) refl k

pub check_rows-IsChecked :
    (rs : List CsvRow) (n : ℕ) (c : Checked)
    → IsChecked n c
    → IsChecked (n + length rs) (check_rows rs c)
unfolding check_rows
check_rows-IsChecked [] n c k = subst (λ (m : ℕ). IsChecked m c) (omega arith) k
check_rows-IsChecked (r ∷ rs) n c k =
    subst (λ (m : ℕ). IsChecked m (check_rows rs (check_row r c))) (omega arith)
      (check_rows-IsChecked rs (suc n) (check_row r c) (check_row-IsChecked n r c k))
