-- ===== src/QuestionBank/RoundTrip.antt =====
-- `parseCsv` reads back what is written with every field in quotes.
use mathlib.Core.List.{append_assoc, append-nil}
use elder_interview_ai.Prelude.{
  ℕ, suc, ◌+◌, ◌≡◌, ◌≢◌, refl, sym, ap, ◌∙◌, Bool, true, false, List, [], ◌∷◌, ◌++◌, arith, All,
  if◌then◌else◌, eqb, length,
}
use elder_interview_ai.Prelude.Action.{ok}
use elder_interview_ai.QuestionBank.Types.{Units}
use elder_interview_ai.QuestionBank.Csv.{
  CsvRow, Reader, reader, quote, comma, cr, lf, next_is, push_record, quoted, end_record, unquoted,
  read_unit, read_units, ends_with_newline, finish, finish_result, parse_csv,
}

-- A field up to its closing quote, and then the rest: a quote in it is doubled.
abbrev pub escaped : Units → Units → Units
escaped [] rest = quote ∷ rest
escaped (c ∷ cs) rest = if eqb c quote then quote ∷ quote ∷ escaped cs rest else c ∷ escaped cs rest

-- A record, and then the rest.
abbrev pub written_fields : List Units → Units → Units
written_fields [] rest = rest
written_fields (f ∷ []) rest = quote ∷ escaped f rest
written_fields (f ∷ g ∷ gs) rest = quote ∷ escaped f (comma ∷ written_fields (g ∷ gs) rest)

abbrev pub written : List (List Units) → Units
written [] = []
written (fs ∷ rs) = written_fields fs (lf ∷ written rs)

abbrev pub newlines : Units → ℕ
newlines [] = 0
newlines (c ∷ cs) = if eqb c lf then suc (newlines cs) else newlines cs

abbrev pub all_newlines : List Units → ℕ
all_newlines [] = 0
all_newlines (f ∷ fs) = newlines f + all_newlines fs

-- The records with the physical rows on which they start.
abbrev pub numbered : ℕ → List (List Units) → List CsvRow
numbered n [] = []
numbered n (fs ∷ rs) = record { fields = fs; row = n } ∷ numbered (n + all_newlines fs + 1) rs

-- No carriage return: the reader turns it into a line feed.
abbrev pub HasNoReturn : Units → Type 0
HasNoReturn f = All (λ c. c ≢ cr) f

-- A record has a field.
abbrev pub IsRecord : List Units → Type 0
IsRecord [] = ⊥
IsRecord (f ∷ fs) = HasNoReturn f × All HasNoReturn fs

abbrev inside : List CsvRow → List Units → Units → ℕ → ℕ → Reader
inside rows fields field physical from = record {
  rows = rows;
  fields = fields;
  field = field;
  in_quotes = true;
  after_quote = false;
  physical_row = physical;
  record_row = from;
}

abbrev after : List CsvRow → List Units → Units → ℕ → ℕ → Reader
after rows fields field physical from = record {
  rows = rows;
  fields = fields;
  field = field;
  in_quotes = false;
  after_quote = true;
  physical_row = physical;
  record_row = from;
}

abbrev fresh : List CsvRow → List Units → ℕ → ℕ → Reader
fresh rows fields physical from = record {
  rows = rows;
  fields = fields;
  field = [];
  in_quotes = false;
  after_quote = false;
  physical_row = physical;
  record_row = from;
}

snoc_append : (xs : Units) (c : ℕ) (ys : Units) → (xs ++ c ∷ []) ++ ys ≡ xs ++ c ∷ ys
snoc_append xs c ys = append_assoc xs (c ∷ []) ys

read-escaped :
    (f rest acc : Units) (rows : List CsvRow) (fields : List Units) (p k : ℕ)
    → HasNoReturn f
    → next_is quote rest ≡ false
    → read_units false (inside rows fields acc p k) (escaped f rest)
      ≡ read_units false (after rows fields (acc ++ f) (p + newlines f) k) rest
unfolding read_units read_unit quoted
read-escaped [] rest acc rows fields p k h n = ground (arith, append-nil acc)
read-escaped (c ∷ cs) rest acc rows fields p k h n = ground (
  arith,
  snoc_append acc c cs,
  read-escaped cs rest (acc ++ c ∷ []) rows fields p k h.1 n,
  read-escaped cs rest (acc ++ c ∷ []) rows fields (p + 1) k h.1 n,
)

read-open :
    (rest : Units) (rows : List CsvRow) (fields : List Units) (p k : ℕ)
    → read_units false (fresh rows fields p k) (quote ∷ rest)
      ≡ read_units false (inside rows fields [] p k) rest
unfolding read_units read_unit unquoted
read-open rest rows fields p k = refl

read-comma :
    (rest f : Units) (rows : List CsvRow) (fields : List Units) (p k : ℕ)
    → read_units false (after rows fields f p k) (comma ∷ rest)
      ≡ read_units false (fresh rows (fields ++ f ∷ []) p k) rest
unfolding read_units read_unit unquoted
read-comma rest f rows fields p k = refl

read-line :
    (rest f : Units) (rows : List CsvRow) (fields : List Units) (p k : ℕ)
    → read_units false (after rows fields f p k) (lf ∷ rest)
      ≡ read_units false
          (fresh (rows ++ record { fields = fields ++ f ∷ []; row = k } ∷ []) [] (p + 1) (p + 1))
          rest
unfolding read_units read_unit unquoted end_record push_record
read-line rest f rows fields p k = refl

read-quoted :
    (f rest : Units) (rows : List CsvRow) (fields : List Units) (p k : ℕ)
    → HasNoReturn f
    → next_is quote rest ≡ false
    → read_units false (fresh rows fields p k) (quote ∷ escaped f rest)
      ≡ read_units false (after rows fields f (p + newlines f) k) rest
read-quoted f rest rows fields p k h n =
    read-open (escaped f rest) rows fields p k ∙ read-escaped f rest [] rows fields p k h n

-- The reader after a record of these fields, on the rows before it.
abbrev beyond : List CsvRow → List Units → ℕ → ℕ → Reader
beyond rows fields physical from =
    fresh (rows ++ record { fields = fields; row = from } ∷ []) [] (physical + 1) (physical + 1)

read-record :
    (f : Units) (fs : List Units) (rest : Units) (rows : List CsvRow) (fields : List Units)
    (p k : ℕ)
    → HasNoReturn f
    → All HasNoReturn fs
    → read_units false (fresh rows fields p k) (written_fields (f ∷ fs) (lf ∷ rest))
      ≡ read_units false (beyond rows (fields ++ f ∷ fs) (p + all_newlines (f ∷ fs)) k) rest
read-record f [] rest rows fields p k h hs =
    read-quoted f (lf ∷ rest) rows fields p k h refl
    ∙ (read-line rest f rows fields (p + newlines f) k
        ∙ ap (λ (n : ℕ). read_units false (beyond rows (fields ++ f ∷ []) n k) rest) (omega arith))
read-record f (g ∷ gs) rest rows fields p k h hs =
    read-quoted f (comma ∷ written_fields (g ∷ gs) (lf ∷ rest)) rows fields p k h refl
    ∙ (read-comma (written_fields (g ∷ gs) (lf ∷ rest)) f rows fields (p + newlines f) k
        ∙ (read-record g gs rest rows (fields ++ f ∷ []) (p + newlines f) k hs.0 hs.1
            ∙ (ap
                  (λ (xs : List Units).
                    read_units false (beyond rows xs (p + newlines f + all_newlines (g ∷ gs)) k)
                      rest)
                  (append_assoc fields (f ∷ []) (g ∷ gs))
                ∙ ap (λ (n : ℕ). read_units false (beyond rows (fields ++ f ∷ g ∷ gs) n k) rest)
                    (omega arith))))

-- The physical row behind the records.
abbrev last_row : ℕ → List (List Units) → ℕ
last_row n [] = n
last_row n (fs ∷ rs) = last_row (n + all_newlines fs + 1) rs

read-written :
    (rs : List (List Units)) (rows : List CsvRow) (p : ℕ)
    → All IsRecord rs
    → read_units false (fresh rows [] p p) (written rs)
      ≡ ok (fresh (rows ++ numbered p rs) [] (last_row p rs) (last_row p rs))
unfolding read_units
read-written [] rows p h = ap (λ (xs : List CsvRow). ok (fresh xs [] p p)) (sym (append-nil rows))
read-written ([] ∷ rs) rows p h = absurd h.0
read-written ((f ∷ fs) ∷ rs) rows p h =
    let n = p + all_newlines (f ∷ fs) + 1 in
    let here : CsvRow = record { fields = f ∷ fs; row = p } in
    read-record f fs (written rs) rows [] p p h.0.0 h.0.1
    ∙ (read-written rs (rows ++ here ∷ []) n h.1
        ∙ ap (λ (xs : List CsvRow). ok (fresh xs [] (last_row n rs) (last_row n rs)))
            (append_assoc rows (here ∷ []) (numbered n rs)))

ends-cons : (c : ℕ) (t : Units) → ends_with_newline t ≡ true → ends_with_newline (c ∷ t) ≡ true
ends-cons c [] h = cc
ends-cons c (d ∷ ds) h = h

ends-escaped : (f t : Units) → ends_with_newline t ≡ true → ends_with_newline (escaped f t) ≡ true
ends-escaped [] t h = ends-cons quote t h
ends-escaped (c ∷ cs) t h =
    let rest = ends-escaped cs t h in
    ground (
      arith,
      ends-cons c (escaped cs t) rest,
      ends-cons quote (quote ∷ escaped cs t) (ends-cons quote (escaped cs t) rest),
    )

ends-record :
    (fs : List Units) (t : Units)
    → ends_with_newline t ≡ true
    → ends_with_newline (written_fields fs t) ≡ true
ends-record [] t h = h
ends-record (f ∷ []) t h = ends-cons quote (escaped f t) (ends-escaped f t h)
ends-record (f ∷ g ∷ gs) t h =
    let rest = ends-cons comma (written_fields (g ∷ gs) t) (ends-record (g ∷ gs) t h) in
    ends-cons quote (escaped f (comma ∷ written_fields (g ∷ gs) t))
      (ends-escaped f (comma ∷ written_fields (g ∷ gs) t) rest)

ends-written :
    (fs : List Units) (rs : List (List Units)) → ends_with_newline (written (fs ∷ rs)) ≡ true
ends-written fs [] = ends-record fs (lf ∷ []) refl
ends-written fs (gs ∷ rs) =
    ends-record fs (lf ∷ written (gs ∷ rs)) (ends-cons lf (written (gs ∷ rs)) (ends-written gs rs))

finishes :
    (text : Units) (rows : List CsvRow) (p : ℕ)
    → ends_with_newline text ≡ true
    → finish text (fresh rows [] p p) ≡ ok rows
unfolding finish
finishes text rows p h = ground arith

nonempty : (fs : List Units) (t : Units) → eqb (length (written_fields fs (lf ∷ t))) 0 ≡ false
nonempty [] t = ground arith
nonempty (f ∷ []) t = ground arith
nonempty (f ∷ g ∷ gs) t = ground arith

-- `parseCsv` reads every list of records back, each with the physical row on which it starts, when
-- it is written with each field in quotes, quotes doubled, commas between the fields and a line feed
-- after each record; each record has a field, and no field has a carriage return.
pub parse_csv-written :
    (rs : List (List Units)) → All IsRecord rs → parse_csv (written rs) ≡ ok (numbered 1 rs)
unfolding parse_csv
parse_csv-written [] h = refl
parse_csv-written (fs ∷ rs) h =
    let text = written (fs ∷ rs) in
    let n = last_row 1 (fs ∷ rs) in
    ap (λ (b : Bool). if b then ok [] else finish_result text (read_units false reader text))
      (nonempty fs (written rs))
    ∙ (ap (finish_result text) (read-written (fs ∷ rs) [] 1 h)
        ∙ finishes text (numbered 1 (fs ∷ rs)) n (ends-written fs rs))
