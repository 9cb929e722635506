-- ===== src/QuestionBank.antt =====
-- apps/api/src/question-bank: the import check of a question bank file.
pub mod Types
pub mod Csv
pub mod Fields
pub mod Rows
pub mod Validate
mod RoundTrip
mod RowChecks
mod Loop
mod Accepted
mod Explained
mod Tests
