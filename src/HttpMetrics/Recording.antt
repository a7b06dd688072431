-- ===== src/HttpMetrics/Recording.antt =====
-- What an instrumented round tripper returns and records.
use terraform_cloudrun_glue.Base.{
  ◌≡◌, ◌≢◌, refl, true, false, none, some, List, [], ◌∷◌, ◌++◌, inl, inr, Bool-cases, ℤ, pos, ◌*ℤ◌,
  ◌^◌, ltb_ℤ, if◌then◌else◌, Text, text_eq, text_eq_iff, codes, Dict, Result, returns, fails,
  parse_int, format_nat,
}
use mathlib.Core.List.{append_assoc, append-nil}
use terraform_cloudrun_glue.HttpMetrics.{
  Request, Response, Config, Observation, counted, entered, left, took, set, number, fraction,
  minutes, labels, minus_ℤ, code_of, preserve_traceparent_header, restore_traceparent_header,
  github_gauges, github_value, or_unknown, get_header,
}
use terraform_cloudrun_glue.HttpMetrics.Buckets.{docker_gauges-never}
use terraform_cloudrun_glue.HttpMetrics.Transport.{
  RoundTripper, wrap_transport, duration_of, github_of, docker_of, beneath,
  instrument_docker_hub_rate_limit, instrument_github_rate_limits,
}

-- The number that a header has, or 0 for a header without one.
pub record Reads (t : Text) (v : ℤ) : Type 0 where
  pub numeral : (n : ℤ) → parse_int t ≡ (n, true) → v ≡ n
  pub other : (n : ℤ) → parse_int t ≡ (n, false) → v ≡ pos 0

-- The gauges for an answer from GitHub with these headers.
pub record IsGitHub (now : ℤ) (h : Dict Text) (gauges : List Observation) : Type 0 where
  pub resource : Text
  pub remaining : ℤ
  pub limit : ℤ
  pub reset : ℤ
  pub used : List Observation
  pub time_left : List Observation
  pub unnamed : get_header (codes "X-RateLimit-Resource") h ≡ [] → resource ≡ codes "unknown"
  pub named :
      get_header (codes "X-RateLimit-Resource") h ≢ []
      → resource ≡ get_header (codes "X-RateLimit-Resource") h
  pub reads_remaining : Reads (get_header (codes "X-RateLimit-Remaining") h) remaining
  pub reads_limit : Reads (get_header (codes "X-RateLimit-Limit") h) limit
  pub reads_reset : Reads (get_header (codes "X-RateLimit-Reset") h) reset
  pub limited :
      ltb_ℤ (pos 0) limit ≡ true
      → used
        ≡ set (codes "github_rate_limit_used") resource (fraction (minus_ℤ limit remaining) limit)
          ∷ []
  pub unlimited : ltb_ℤ (pos 0) limit ≡ false → used ≡ []
  pub resets :
      ltb_ℤ (pos 0) reset ≡ true
      → time_left
        ≡ set
            (codes "github_rate_limit_time_to_reset")
            resource
            (minutes (minus_ℤ (reset *ℤ pos (10 ^ 9)) now))
          ∷ []
  pub no_reset : ltb_ℤ (pos 0) reset ≡ false → time_left ≡ []
  pub all :
      gauges
      ≡ set (codes "github_rate_limit_remaining") resource (number remaining)
        ∷ set (codes "github_rate_limit") resource (number limit)
        ∷ set (codes "github_rate_limit_reset") resource (number reset)
        ∷ (used ++ time_left)

-- Only an answer from GitHub sets gauges.
pub data IsGauged (now : ℤ) (host : Text) : Result Response → List Observation → Type 0 where
  unanswered : (e : Text) → IsGauged now host (fails e) []
  elsewhere :
      (resp : Response) → host ≢ codes "api.github.com" → IsGauged now host (returns resp) []
  at_github :
      (resp : Response) (gauges : List Observation)
      → host ≡ codes "api.github.com"
      → IsGitHub now resp.header gauges
      → IsGauged now host (returns resp) gauges

-- An answer is timed, under its status.
pub data IsTimed (cfg : Config) (r : Request) (time : ℤ)
    : Result Response → List Observation → Type 0 where
  failed : (e : Text) → IsTimed cfg r time (fails e) []
  timed :
      (resp : Response)
      → IsTimed cfg r time
          (returns resp)
          (took (labels cfg (some (format_nat resp.status_code)) r) time ∷ [])

github_value-Reads : (t : Text) → Reads t (github_value t)
unfolding github_value parse_int
github_value-Reads [] = record { numeral = λ n e. absurd (cc); other = λ n e. refl }
github_value-Reads (c ∷ v) = record {
  numeral = λ n e. rw (e, github_value) refl;
  other = λ n e. rw (e, github_value) refl;
}

github_gauges-IsGitHub : (now : ℤ) (h : Dict Text) → IsGitHub now h (github_gauges now h)
unfolding github_gauges
github_gauges-IsGitHub now h =
    let named_by = or_unknown (get_header (codes "X-RateLimit-Resource") h) in
    let m = github_value (get_header (codes "X-RateLimit-Remaining") h) in
    let n = github_value (get_header (codes "X-RateLimit-Limit") h) in
    let t = github_value (get_header (codes "X-RateLimit-Reset") h) in
    record {
      resource = named_by;
      remaining = m;
      limit = n;
      reset = t;
      used =
          if ltb_ℤ (pos 0) n
          then set (codes "github_rate_limit_used") named_by (fraction (minus_ℤ n m) n) ∷ []
          else [];
      time_left =
          if ltb_ℤ (pos 0) t
          then set (codes "github_rate_limit_time_to_reset") named_by
              (minutes (minus_ℤ (t *ℤ pos (10 ^ 9)) now))
            ∷ []
          else [];
      unnamed = λ e. rw e refl;
      named = name (get_header (codes "X-RateLimit-Resource") h);
      reads_remaining = github_value-Reads (get_header (codes "X-RateLimit-Remaining") h);
      reads_limit = github_value-Reads (get_header (codes "X-RateLimit-Limit") h);
      reads_reset = github_value-Reads (get_header (codes "X-RateLimit-Reset") h);
      limited = λ e. rw e refl;
      unlimited = λ e. rw e refl;
      resets = λ e. rw e refl;
      no_reset = λ e. rw e refl;
      all = refl;
    }
  where
    name : (t : Text) → t ≢ [] → or_unknown t ≡ t
    name [] other = absurd (other refl)
    name (c ∷ t) other = refl

module _ {W : Type 0} (cfg : Config) (clock : W → ℤ) (r : Request) where
  docker_of-never : (m : Result Response × (W × List Observation)) → docker_of cfg clock r m ≡ []
  docker_of-never (fails e, s) = refl
  docker_of-never (returns resp, s) = elim (Bool-cases (text_eq r.host (codes "index.docker.io"))) [
    | inl e ↦ rw e (docker_gauges-never resp.header)
    | inr e ↦ rw e refl
  ]

  github_of-IsGauged :
      (m : Result Response × (W × List Observation))
      → IsGauged (clock m.1.0) r.host m.0 (github_of cfg clock r m)
  github_of-IsGauged (fails e, s) = unanswered e
  github_of-IsGauged (returns resp, (w, seen)) =
      elim (Bool-cases (text_eq r.host (codes "api.github.com"))) [
        | inl e ↦ rw e (
            at_github resp _ ((text_eq_iff r.host (codes "api.github.com")).0 e)
              (github_gauges-IsGitHub (clock w) resp.header))
        | inr e ↦ rw e (elsewhere resp (apart e))
      ]
    where
      apart : text_eq r.host (codes "api.github.com") ≡ false → r.host ≢ codes "api.github.com"
      apart e h = let t = (text_eq_iff r.host (codes "api.github.com")).1 h in cc

  duration_of-IsTimed :
      (start : ℤ) (m : Result Response × (W × List Observation))
      → IsTimed cfg r (minus_ℤ (clock m.1.0) start) m.0 (duration_of cfg clock r start m)
  duration_of-IsTimed start (fails e, s) = failed e
  duration_of-IsTimed start (returns resp, (w, seen)) = timed resp

-- What was recorded before and then: the request entered, the gauges and the time of its answer, and
-- that it left and was counted.
abbrev pub Records :
    Config
    → Request
    → (started ended : ℤ) → Result Response
    → List Observation
    → List Observation
    → Type 0
Records cfg r started ended answer seen all =
    (gauges : List Observation) × (timing : List Observation) × IsGauged ended r.host answer gauges
    × IsTimed cfg r (minus_ℤ ended started) answer timing
    × (all
        ≡ seen
          ++ entered (labels cfg none r)
            ∷ (gauges
                ++ (timing
                    ++ left (labels cfg none r)
                      ∷ counted (labels cfg (some (code_of answer)) r)
                      ∷ [])))

regroup :
    (seen d g t : List Observation) (e l c : Observation)
    → d ≡ []
    → ((((((seen ++ e ∷ []) ++ d) ++ g) ++ t) ++ l ∷ []) ++ c ∷ [])
      ≡ seen ++ e ∷ (g ++ (t ++ l ∷ c ∷ []))
regroup seen d g t e l c h = rw h (simp (append_assoc, append-nil))

-- An instrumented round tripper gives the answer of the one that it wraps and leaves the state that
-- that one leaves. It records, in this order, that the request entered; for an answer from GitHub its
-- rate limits, read from the headers, and for any other host, Docker Hub's too, no gauge; for an
-- answer without an error the time that it took, under its status; and that the request left and was
-- counted once.
pub wrap_transport-Records :
    {W : Type 0} (cfg : Config) (clock : W → ℤ) (otel : Request → Request) (t : RoundTripper W)
    (r : Request) (w : W) (seen : List Observation)
    → let q = preserve_traceparent_header (otel (restore_traceparent_header r)) in
      let m = wrap_transport cfg clock otel t r (w, seen) in
      (m.0 ≡ (t q w).0)
      × (m.1.0 ≡ (t q w).1)
      × Records cfg (restore_traceparent_header r) (clock w) (clock (t q w).1) (t q w).0 seen m.1.1
unfolding wrap_transport
wrap_transport-Records cfg clock otel t r w seen =
    let q = restore_traceparent_header r in
    let s0 : _ × List Observation = (w, seen ++ entered (labels cfg none q) ∷ []) in
    let next : RoundTripper _ = λ q. beneath cfg clock t (preserve_traceparent_header (otel q)) in
    let docker = instrument_docker_hub_rate_limit cfg clock next in
    let github = instrument_github_rate_limits cfg clock docker in
    (
      refl,
      refl,
      (
        github_of cfg clock q (docker q s0),
        duration_of cfg clock q (clock w) (github q s0),
        github_of-IsGauged cfg clock q (docker q s0),
        duration_of-IsTimed cfg clock q (clock w) (github q s0),
        regroup seen (docker_of cfg clock q (next q s0)) (github_of cfg clock q (docker q s0))
            (duration_of cfg clock q (clock w) (github q s0)) _ _ _
            (docker_of-never cfg clock q (next q s0)),
      ),
    )
