-- ===== src/Base/Results.antt =====
-- What a Go function that returns an error gives: a value, or the text of the error.
use terraform_cloudrun_glue.Base.Bytes.{Text}

pub data Result (A : Type 0) : Type 0 where
  returns : A → Result A
  fails : Text → Result A
