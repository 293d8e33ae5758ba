-- ===== src/Console/Errors.antt =====
-- The errors that the console answers with (internal/console/source.go): a status and a code.
use nakama_agones.Prelude.{ℕ, String}

pub record SourceError : Type 0 where
  pub status : ℕ
  pub error_code : String

abbrev pub source_error : ℕ → String → SourceError
source_error n s = record { status = n; error_code = s }
