-- ===== src/Workqueue/Errors.antt =====
-- pkg/workqueue/error.go. gRPC's package status is a parameter: its Status, how an error is read
-- as one, and how details are attached and listed.
use mathlib.Core.Option
use terraform_cloudrun_glue.Base.{
  ◌↔◌, ◌≡◌, refl, ap, ◌∙◌, Bool, true, Option, none, some, List, [], ◌∷◌, ◌++◌, ℤ, Text,
  if◌then◌else◌, arith,
}

-- An error value: a requeueError, the error of a gRPC status, another error, or one that fmt.Errorf
-- wraps around another with %w.
pub data GoError (S : Type 0) : Type 0 where
  plain : Text → GoError S
  requeue_error : ℤ → GoError S
  status_error : S → GoError S
  wrap : Text → GoError S → GoError S

-- A detail of a status: a NoRetryDetails message, or a message of another kind.
pub data Detail : Type 0 where
  no_retry : Text → Detail
  other : Text → Detail

-- google.golang.org/grpc/status.
pub record StatusLib : Type 1 where
  pub Status : Type 0
  -- FromError: the status, and whether the error carried one.
  pub from_error : GoError Status → Status × Bool
  pub with_details : Status → Detail → Option Status
  pub details : Status → List Detail
  -- Err: nil for a status whose code is OK.
  pub err : Status → Option (GoError Status)

-- Its documented behaviour, as far as the program relies on it.
pub record StatusLaws (lib : StatusLib) : Type 1 where
  pub details-with_details :
      (s t : lib.Status) (d : Detail)
      → lib.with_details s d ≡ some t
      → lib.details t ≡ lib.details s ++ d ∷ []
  pub from_error-err :
      (s : lib.Status) (e : GoError lib.Status) → lib.err s ≡ some e → lib.from_error e ≡ (s, true)

-- RequeueAfter
unfoldable pub requeue_after : {S : Type 0} → ℤ → GoError S
requeue_after delay = requeue_error delay

-- errors.As with a requeueError as its target.
unfoldable pub get_requeue_delay : {S : Type 0} → GoError S → Option ℤ
get_requeue_delay (plain m) = none
get_requeue_delay (requeue_error delay) = some delay
get_requeue_delay (status_error s) = none
get_requeue_delay (wrap m e) = get_requeue_delay e

unfoldable pub find_no_retry : List Detail → Option Text
find_no_retry [] = none
find_no_retry (no_retry reason ∷ ds) = some reason
find_no_retry (other m ∷ ds) = find_no_retry ds

module _ (lib : StatusLib) where
  -- `none` is the nil error.
  unfoldable pub non_retriable_error :
      Option (GoError lib.Status) → Text → Option (GoError lib.Status)
  non_retriable_error none reason = none
  non_retriable_error (some e) reason =
      elim (lib.with_details (lib.from_error e).0 (no_retry reason)) [
        | none ↦ some e
        | some s ↦ lib.err s
      ]

  unfoldable pub get_non_retriable_details : Option (GoError lib.Status) → Option Text
  unfolding find_no_retry
  get_non_retriable_details none = none
  get_non_retriable_details (some e) =
      let (s, carried) = lib.from_error e in if carried then find_no_retry (lib.details s) else none

find_no_retry-append :
    (ds : List Detail) (reason : Text)
    → find_no_retry (ds ++ no_retry reason ∷ []) ≡ some (Option.get_or (find_no_retry ds) reason)
unfolding find_no_retry
find_no_retry-append [] reason = refl
find_no_retry-append (no_retry r ∷ ds) reason = refl
find_no_retry-append (other m ∷ ds) reason = find_no_retry-append ds reason

-- An error that NonRetriableError marks is recognised by GetNonRetriableDetails, with the reason of
-- the first mark that the error ever got.
pub details-non_retriable_error :
    (lib : StatusLib) (e marked : GoError lib.Status) (t : lib.Status) (reason : Text)
    → StatusLaws lib
    → lib.with_details (lib.from_error e).0 (no_retry reason) ≡ some t
    → lib.err t ≡ some marked
    → (non_retriable_error lib (some e) reason ≡ some marked)
      × (get_non_retriable_details lib (some marked)
          ≡ some (Option.get_or (find_no_retry (lib.details (lib.from_error e).0)) reason))
unfolding non_retriable_error get_non_retriable_details
details-non_retriable_error lib e marked t reason laws attached made = (
  rw (attached, non_retriable_error) made,
  rw (laws.from_error-err t marked made, laws.details-with_details _ t _ attached)
      (find_no_retry-append (lib.details (lib.from_error e).0) reason),
)

abbrev pub wraps : {S : Type 0} → List Text → GoError S → GoError S
wraps [] e = e
wraps (m ∷ ms) e = wrap m (wraps ms e)

wraps_delay :
    (S : Type 0) (ms : List Text) (d : ℤ)
    → get_requeue_delay {S = S} (wraps ms (requeue_after d)) ≡ some d
unfolding get_requeue_delay requeue_after
wraps_delay S [] d = refl
wraps_delay S (m ∷ ms) d = wraps_delay S ms d

delay_wraps :
    {S : Type 0} (e : GoError S) (d : ℤ)
    → get_requeue_delay e ≡ some d
    → (ms : List Text) × (e ≡ wraps ms (requeue_after d))
unfolding get_requeue_delay requeue_after
delay_wraps (plain m) d h = cc
delay_wraps (requeue_error x) d h = ([], ground arith)
delay_wraps (status_error s) d h = cc
delay_wraps (wrap m e) d h = let (ms, f) = delay_wraps e d h in (m ∷ ms, ap (wrap m) f)

-- GetRequeueDelay finds a delay exactly in the errors that RequeueAfter made with it, however often
-- these have been wrapped.
pub get_requeue_delay_iff :
    {S : Type 0} (e : GoError S) (d : ℤ)
    → (get_requeue_delay e ≡ some d) ↔ ((ms : List Text) × (e ≡ wraps ms (requeue_after d)))
get_requeue_delay_iff e d =
    (delay_wraps e d, λ (ms, f). ap get_requeue_delay f ∙ wraps_delay _ ms d)
