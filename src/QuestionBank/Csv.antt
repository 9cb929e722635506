-- ===== src/QuestionBank/Csv.antt =====
-- `parseCsv` of apps/api/src/question-bank/question-bank.csv.ts: a reader of comma separated records
-- with quoted fields, by code unit.
use elder_interview_ai.Prelude.{
  ℕ, ◌+◌, Bool, true, false, not, ◌&&◌, ◌||◌, List, [], ◌∷◌, ◌++◌, if◌then◌else◌, eqb, length,
}
use elder_interview_ai.Prelude.Action.{Result, ok, err}
use elder_interview_ai.QuestionBank.Types.{Units}

pub record CsvRow : Type 0 where
  pub fields : List Units
  pub row : ℕ

-- The variables of the loop.
pub record Reader : Type 0 where
  pub rows : List CsvRow
  pub fields : List Units
  pub field : Units
  pub in_quotes : Bool
  pub after_quote : Bool
  pub physical_row : ℕ
  pub record_row : ℕ

abbrev pub quote : ℕ
quote = 34

abbrev pub comma : ℕ
comma = 44

abbrev pub cr : ℕ
cr = 13

abbrev pub lf : ℕ
lf = 10

abbrev pub reader : Reader
reader = record {
  rows = [];
  fields = [];
  field = [];
  in_quotes = false;
  after_quote = false;
  physical_row = 1;
  record_row = 1;
}

unfoldable pub push_record : Reader → Reader
push_record r = record r {
  rows = r.rows ++ record { fields = r.fields ++ r.field ∷ []; row = r.record_row } ∷ [];
  fields = [];
  field = [];
  record_row = r.physical_row + 1;
  after_quote = false;
}

abbrev pub push_unit : ℕ → Reader → Reader
push_unit c r = record r { field = r.field ++ c ∷ [] }

-- `text[index + 1] === unit`
abbrev pub next_is : ℕ → Units → Bool
next_is c [] = false
next_is c (d ∷ ds) = eqb c d

-- The units left, and whether `index += 1` skips the first of them; or the row of a syntax error.
abbrev Step : Type 0
Step = Result ℕ (Bool × Reader)

-- A unit inside of quotes.
unfoldable pub quoted : ℕ → Units → Reader → Bool × Reader
quoted c next r =
    if eqb c quote
    then if next_is quote next
      then (true, push_unit quote r)
      else (false, record r { in_quotes = false; after_quote = true })
    else if eqb c cr || eqb c lf
    then (
      eqb c cr && next_is lf next,
      record (push_unit lf r) { physical_row = r.physical_row + 1 },
    )
    else (false, push_unit c r)

-- The end of a record.
unfoldable pub end_record : Reader → Reader
end_record r =
    let pushed = push_record r in
    record pushed { physical_row = r.physical_row + 1; record_row = r.physical_row + 1 }

-- A unit outside of quotes.
unfoldable pub unquoted : ℕ → Units → Reader → Result ℕ (Bool × Reader)
unquoted c next r =
    if r.after_quote && not (eqb c comma || eqb c cr || eqb c lf)
    then err r.physical_row
    else if eqb c quote
    then if not (eqb (length r.field) 0)
      then err r.physical_row
      else ok (false, record r { in_quotes = true })
    else if eqb c comma
    then ok (false, record r { fields = r.fields ++ r.field ∷ []; field = []; after_quote = false })
    else if eqb c cr || eqb c lf
    then ok (eqb c cr && next_is lf next, end_record r)
    else ok (false, push_unit c r)

-- One round of the loop.
unfoldable pub read_unit : ℕ → Units → Reader → Result ℕ (Bool × Reader)
read_unit c next r = if r.in_quotes then ok (quoted c next r) else unquoted c next r

abbrev advance : (Bool → Reader → Result ℕ Reader) → Result ℕ (Bool × Reader) → Result ℕ Reader
advance go (err row) = err row
advance go (ok (skip, r)) = go skip r

-- The loop: `true` skips a unit.
unfoldable pub read_units : Bool → Reader → Units → Result ℕ Reader
read_units skip r [] = ok r
read_units true r (c ∷ cs) = read_units false r cs
read_units false r (c ∷ cs) = advance (λ skip r'. read_units skip r' cs) (read_unit c cs r)

abbrev pub ends_with_newline : Units → Bool
ends_with_newline [] = false
ends_with_newline (c ∷ []) = eqb c lf || eqb c cr
ends_with_newline (c ∷ d ∷ ds) = ends_with_newline (d ∷ ds)

-- The part after the loop.
unfoldable pub finish : Units → Reader → Result ℕ (List CsvRow)
finish text r =
    if r.in_quotes
    then err r.record_row
    else if not (eqb (length r.field) 0)
        || not (eqb (length r.fields) 0)
        || not (ends_with_newline text)
    then ok (r.rows ++ record { fields = r.fields ++ r.field ∷ []; row = r.record_row } ∷ [])
    else ok r.rows

abbrev pub finish_result : Units → Result ℕ Reader → Result ℕ (List CsvRow)
finish_result text (err row) = err row
finish_result text (ok r) = finish text r

unfoldable pub parse_csv : Units → Result ℕ (List CsvRow)
parse_csv text =
    if eqb (length text) 0 then ok [] else finish_result text (read_units false reader text)
