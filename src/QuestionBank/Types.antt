-- ===== src/QuestionBank/Types.antt =====
-- apps/api/src/question-bank/question-bank.types.ts: the columns and the vocabularies of a question
-- bank, what is wrong with a file, and a row that is right. Text of the file is a list of UTF-16
-- code units; codes and column names are strings.
use elder_interview_ai.Prelude.{
  ℕ, Bool, true, false, ◌&&◌, String, List, [], ◌∷◌, map, Option, eqb, any,
}
use elder_interview_ai.Prelude.Text.{codes}

abbrev pub Units : Type 0
Units = List ℕ

abbrev pub question_bank_headers : List String
question_bank_headers =
    "question_id" ∷ "bank" ∷ "topic" ∷ "question_text" ∷ "purpose" ∷ "applicable_when"
    ∷ "inapplicable_when" ∷ "sensitivity" ∷ "source_type" ∷ "source_reference" ∷ "license_status"
    ∷ "license_reference" ∷ "bank_version" ∷ "enabled" ∷ []

abbrev pub question_bank_validator_version : String
question_bank_validator_version = "question-bank-validator-v1"

abbrev pub question_purposes : List String
question_purposes =
    "detail" ∷ "cause" ∷ "person" ∷ "scene" ∷ "emotion" ∷ "choice" ∷ "conflict" ∷ "turning_point"
    ∷ "clarify" ∷ "timeline" ∷ "transition" ∷ []

abbrev pub question_condition_codes : List String
question_condition_codes =
    "stage.rapport" ∷ "stage.life_outline" ∷ "stage.story_depth" ∷ "context.person"
    ∷ "context.event" ∷ "context.choice" ∷ "context.turning_point" ∷ "context.emotion"
    ∷ "context.unfinished_story" ∷ "response.low_detail" ∷ "response.concrete"
    ∷ "response.reluctant" ∷ "topic.exhausted" ∷ []

pub data Environment : Type 0 where
  local test formal_internal production : Environment

pub data Scope : Type 0 where
  product internal_demo : Scope

pub record ValidationError : Type 0 where
  pub code : String
  pub column : Option String
  pub row : ℕ

pub record ValidatedRow : Type 0 where
  pub applicable_condition_codes : List Units
  pub bank : Units
  pub bank_version : Units
  pub enabled : Bool
  pub inapplicable_condition_codes : List Units
  pub license_reference : Units
  pub license_status : Units
  pub purpose : Units
  pub question_id : Units
  pub question_text : Units
  pub sensitivity : Units
  pub source_reference : Units
  pub source_type : Units
  pub topic : Units

-- The fields of the result's summary that the file decides; the validator's version is constant.
pub record Summary : Type 0 where
  pub bank_version : Option Units
  pub content_digest : Option String
  pub environment_scope : Option Scope
  pub row_count : ℕ
  pub source_file_digest : String

pub record ValidationResult : Type 0 where
  pub errors : List ValidationError
  pub ok : Bool
  pub rows : List ValidatedRow
  pub summary : Summary

-- `left === right` on text.
unfoldable pub same : Units → Units → Bool
same [] [] = true
same (a ∷ s) (b ∷ bs) = eqb a b && same s bs
same [] (b ∷ bs) = false
same (a ∷ s) [] = false

-- `set.has(value)`
unfoldable pub contains : Units → List Units → Bool
contains t ts = any (same t) ts

-- The text is one of these words.
unfoldable pub is_known : List String → Units → Bool
is_known words t = contains t (map codes words)

unfoldable pub is_word : String → Units → Bool
is_word w t = same t (codes w)
