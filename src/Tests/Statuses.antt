-- ===== src/Tests/Statuses.antt =====
-- Statuses that are their lists of details, and the marks on errors.
use terraform_cloudrun_glue.Base.{
  ◌≡◌, refl, sym, ap, true, false, Bool, some, List, [], ◌∷◌, ◌++◌, pos, Text, codes,
}
use mathlib.Core.Option
use terraform_cloudrun_glue.Workqueue.Errors.{
  GoError, plain, requeue_error, status_error, wrap, Detail, no_retry, StatusLib, StatusLaws,
  find_no_retry, non_retriable_error, get_non_retriable_details, details-non_retriable_error,
}

abbrev status_of : GoError (List Detail) → List Detail × Bool
status_of (status_error s) = (s, true)
status_of (plain m) = ([], false)
status_of (requeue_error d) = ([], false)
status_of (wrap m e) = ([], false)

abbrev pub texts : StatusLib
texts = record {
  Status = List Detail;
  from_error = status_of;
  with_details = λ s d. some (s ++ d ∷ []);
  details = λ s. s;
  err = λ s. some (status_error s);
}

some_status : {s t : List Detail} → some s ≡ some t → s ≡ t
some_status h = cc

some_error : {s t : GoError (List Detail)} → some s ≡ some t → s ≡ t
some_error h = cc

texts-StatusLaws : StatusLaws texts
texts-StatusLaws = record {
  details-with_details = λ s t d h. sym (some_status h);
  from_error-err = λ s e h. ap status_of (sym (some_error h));
}

details-non_retriable_error_example :
    (non_retriable_error texts (some (plain (codes "bad"))) (codes "invalid")
      ≡ some (status_error (no_retry (codes "invalid") ∷ [])))
    × (get_non_retriable_details texts (some (status_error (no_retry (codes "invalid") ∷ [])))
        ≡ some (Option.get_or (find_no_retry []) (codes "invalid")))
details-non_retriable_error_example =
    details-non_retriable_error texts (plain (codes "bad"))
      (status_error (no_retry (codes "invalid") ∷ [])) (no_retry (codes "invalid") ∷ [])
      (codes "invalid") texts-StatusLaws refl refl

abbrev late : GoError Text
late = wrap (codes "late") (requeue_error (pos 7))
