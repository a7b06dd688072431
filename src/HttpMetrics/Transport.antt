-- ===== src/HttpMetrics/Transport.antt =====
-- pkg/httpmetrics/transport.go: the instrumented round trippers.
use terraform_cloudrun_glue.Base.{
  none, some, List, [], ◌∷◌, ◌++◌, if◌then◌else◌, ℤ, codes, text_eq, Result, returns, fails,
  format_nat,
}
use terraform_cloudrun_glue.HttpMetrics.{
  Request, Response, preserve_traceparent_header, restore_traceparent_header, Config, bucketize,
  Observation, minus_ℤ, github_gauges, docker_gauges, labels, code_of, counted, entered, left, took,
}

-- A round tripper over a state `S`.
abbrev pub RoundTripper : Type 0 → Type 0
RoundTripper S = Request → S → Result Response × S

-- `W` is the state of what is beneath, with its clock.
module _ {W : Type 0} (cfg : Config) (clock : W → ℤ) where
  abbrev pub Recorded : Type 0
  Recorded = W × List Observation

  abbrev pub record_all : List Observation → Result Response × Recorded → Result Response × Recorded
  record_all new (resp, (w, seen)) = (resp, (w, seen ++ new))

  unfoldable pub instrument_counter : RoundTripper Recorded → RoundTripper Recorded
  unfolding code_of bucketize
  instrument_counter next r s =
      let (resp, s1) = next r s in
      record_all (counted (labels cfg (some (code_of resp)) r) ∷ []) (resp, s1)

  unfoldable pub instrument_in_flight : RoundTripper Recorded → RoundTripper Recorded
  unfolding bucketize
  instrument_in_flight next r (w, seen) =
      record_all (left (labels cfg none r) ∷ [])
        (next r (w, seen ++ entered (labels cfg none r) ∷ []))

  abbrev pub duration_of : Request → (start : ℤ) → Result Response × Recorded → List Observation
  duration_of r start (fails e, s) = []
  duration_of r start (returns resp, (w, seen)) =
      took (labels cfg (some (format_nat resp.status_code)) r) (minus_ℤ (clock w) start) ∷ []

  unfoldable pub instrument_duration : RoundTripper Recorded → RoundTripper Recorded
  unfolding bucketize
  instrument_duration next r (w, seen) =
      let m = next r (w, seen) in record_all (duration_of r (clock w) m) m

  abbrev pub github_of : Request → Result Response × Recorded → List Observation
  github_of r (fails e, s) = []
  github_of r (returns resp, (w, seen)) =
      if text_eq r.host (codes "api.github.com") then github_gauges (clock w) resp.header else []

  unfoldable pub instrument_github_rate_limits : RoundTripper Recorded → RoundTripper Recorded
  unfolding github_gauges
  instrument_github_rate_limits next r s = let m = next r s in record_all (github_of r m) m

  abbrev pub docker_of : Request → Result Response × Recorded → List Observation
  docker_of r (fails e, s) = []
  docker_of r (returns resp, s) =
      if text_eq r.host (codes "index.docker.io") then docker_gauges resp.header else []

  unfoldable pub instrument_docker_hub_rate_limit : RoundTripper Recorded → RoundTripper Recorded
  unfolding docker_gauges
  instrument_docker_hub_rate_limit next r s = let m = next r s in record_all (docker_of r m) m

  -- The wrapped round tripper, which records nothing.
  abbrev pub beneath : RoundTripper W → RoundTripper Recorded
  beneath t r (w, seen) = let (resp, w1) = t r w in (resp, (w1, seen))

  -- WrapTransport, where otelhttp passes on a request with its headers.
  unfoldable pub wrap_transport :
      (otel : Request → Request) → RoundTripper W → RoundTripper Recorded
  unfolding instrument_counter instrument_in_flight instrument_duration
      instrument_github_rate_limits instrument_docker_hub_rate_limit restore_traceparent_header
      preserve_traceparent_header
  wrap_transport otel t r s =
      instrument_counter
        (instrument_in_flight (
          instrument_duration (
            instrument_github_rate_limits (
              instrument_docker_hub_rate_limit
                (λ q. beneath t (preserve_traceparent_header (otel q)))))))
        (restore_traceparent_header r) s
