-- ===== src/HttpMetrics.antt =====
-- pkg/httpmetrics/transport.go: the round trippers that record metrics. The headers of
-- preserve_traceparent.go and metrics.go beside it. What otelhttp adds to a request is a parameter.

pub mod Buckets
pub mod Transport
pub mod Recording
use terraform_cloudrun_glue.Base.{
  ℕ, zero, suc, ◌+◌, ◌-◌, Bool, true, false, ◌&&◌, Option, none, some, List, [], ◌∷◌, ◌++◌,
  if◌then◌else◌, ℤ, pos, ◌*ℤ◌, ◌^◌, ltb_ℤ, sub_ℕ, pos_part, neg_part, Text, codes, text_eq,
  contains, index, length, take, drop, Dict, lookup, insert, has_suffix, Result, returns, fails,
  parse_int, format_nat,
}

pub record Request : Type 0 where
  pub method : Text
  pub host : Text
  pub header : Dict Text

pub record Response : Type 0 where
  pub status_code : ℕ
  pub header : Dict Text

-- Header.Get
abbrev pub get_header : Text → Dict Text → Text
get_header k h = elim (lookup k h) [ none ↦ [] | some v ↦ v ]

abbrev pub ce_type_header : Text
ce_type_header = codes "ce-type"

abbrev pub goog_client_trace_header : Text
goog_client_trace_header = codes "googclient_traceparent"

abbrev pub original_trace_header : Text
original_trace_header = codes "original-traceparent"

abbrev copied : Text → Text → Dict Text → Dict Text
copied target [] h = h
copied target (c ∷ v) h = insert target (c ∷ v) h

-- preserveTraceparentHeader
unfoldable pub preserve_traceparent_header : Request → Request
preserve_traceparent_header r = record r {
  header = copied original_trace_header (get_header (codes "traceparent") r.header) r.header;
}

abbrev first_of : Text → Text → Text
first_of [] v = v
first_of (c ∷ u) v = c ∷ u

-- restoreTraceparentHeader
unfoldable pub restore_traceparent_header : Request → Request
restore_traceparent_header r = record r {
  header =
      copied (codes "traceparent")
        (first_of (get_header goog_client_trace_header r.header)
          (get_header original_trace_header r.header))
        r.header;
}

unfoldable pub map_error_to_label : Text → Text
unfolding contains
map_error_to_label e =
    if contains e (codes "no route to host")
    then codes "no-route-to_host"
    else if contains e (codes "i/o timeout")
    then codes "io-timeout"
    else if contains e (codes "TLS handshake timeout")
    then codes "tls-handshake-timeout"
    else if contains e (codes "TLS handshake error")
    then codes "tls-handshake-error"
    else if contains e (codes "unexpected EOF")
    then codes "unexpected-eof"
    else codes "unknown-error"

-- The settings of the process and of the transport.
pub record Config : Type 0 where
  pub buckets : Dict Text
  pub bucket_suffixes : Dict Text
  pub skip_bucketize : Bool
  pub service_name : Text
  pub revision_name : Text

-- The first suffix that fits, in the order in which Go goes through the map.
unfoldable pub suffix_bucket : Text → Dict Text → Option Text
unfolding has_suffix
suffix_bucket host [] = none
suffix_bucket host ((k, v) ∷ m) =
    if has_suffix host (codes "." ++ k) then some v else suffix_bucket host m

abbrev is_empty : Dict Text → Bool
is_empty [] = true
is_empty (kv ∷ m) = false

-- An exact match, else a suffix, else neither.
abbrev pub pick : Option Text → Option Text → Text
pick (some b) o = b
pick none (some b) = b
pick none none = codes "other"

unfoldable pub bucketize : Config → Text → Text
unfolding suffix_bucket
bucketize cfg host =
    if cfg.skip_bucketize
    then codes "unbucketized"
    else if is_empty cfg.buckets && is_empty cfg.bucket_suffixes
    then codes "other"
    else pick (lookup host cfg.buckets) (suffix_bucket host cfg.bucket_suffixes)

pub record Labels : Type 0 where
  pub code : Option Text
  pub method : Text
  pub host : Text
  pub service_name : Text
  pub revision_name : Text
  pub ce_type : Text

-- A gauge's value: a number, a fraction, or minutes given in nanoseconds. Go has them as float64.
pub data Value : Type 0 where
  number : ℤ → Value
  fraction : ℤ → ℤ → Value
  minutes : ℤ → Value

-- What is recorded: the counter's Inc, the Inc and the Dec of the requests in flight, a duration in
-- nanoseconds, and a gauge's Set with the resource that labels it.
pub data Observation : Type 0 where
  counted : Labels → Observation
  entered : Labels → Observation
  left : Labels → Observation
  took : Labels → ℤ → Observation
  set : (gauge resource : Text) → Value → Observation

abbrev pub minus_ℤ : ℤ → ℤ → ℤ
minus_ℤ a b = sub_ℕ (pos_part a + neg_part b) (pos_part b + neg_part a)

-- The value of a header that strconv.Atoi reads, else 0.
abbrev pub atoi_or_zero : ℤ × Bool → ℤ
atoi_or_zero (n, true) = n
atoi_or_zero (n, false) = pos 0

unfoldable pub github_value : Text → ℤ
unfolding parse_int
github_value [] = pos 0
github_value (c ∷ v) = atoi_or_zero (parse_int (c ∷ v))

-- strings.Cut: what is before the separator, and whether it was found.
unfoldable pub cut_before : (s sep : Text) → Text × Bool
unfolding index
cut_before s sep = elim (index s sep) [ none ↦ (s, false) | some i ↦ (take i s, true) ]

abbrev pub cut_value : Text × Bool → ℤ
cut_value (v, false) = pos 0
cut_value (v, true) = atoi_or_zero (parse_int v)

-- The arguments of Cut stand as they do in the source.
unfoldable pub docker_value : Text → ℤ
unfolding cut_before
docker_value [] = pos 0
docker_value (c ∷ v) = cut_value (cut_before (codes ";") (c ∷ v))

abbrev pub or_unknown : Text → Text
or_unknown [] = codes "unknown"
or_unknown (c ∷ v) = c ∷ v

-- The gauges that are set, given the values read.
abbrev pub github_set :
    (now : ℤ) → (resource : Text) → (remaining limit reset : ℤ) → List Observation
github_set now resource remaining limit reset =
    set (codes "github_rate_limit_remaining") resource (number remaining)
    ∷ set (codes "github_rate_limit") resource (number limit)
    ∷ set (codes "github_rate_limit_reset") resource (number reset)
    ∷ ((if ltb_ℤ (pos 0) limit
          then set (codes "github_rate_limit_used") resource
              (fraction (minus_ℤ limit remaining) limit)
            ∷ []
          else [])
        ++ (if ltb_ℤ (pos 0) reset
            then set (codes "github_rate_limit_time_to_reset") resource
                (minutes (minus_ℤ (reset *ℤ pos (10 ^ 9)) now))
              ∷ []
            else []))

unfoldable pub github_gauges : (now : ℤ) → Dict Text → List Observation
unfolding github_value
github_gauges now h =
    github_set now (or_unknown (get_header (codes "X-RateLimit-Resource") h))
      (github_value (get_header (codes "X-RateLimit-Remaining") h))
      (github_value (get_header (codes "X-RateLimit-Limit") h))
      (github_value (get_header (codes "X-RateLimit-Reset") h))

abbrev pub docker_set : (remaining limit : ℤ) → List Observation
docker_set remaining limit =
    (if ltb_ℤ (pos 0) remaining
      then set (codes "docker_rate_limit_remaining") [] (number remaining) ∷ []
      else [])
    ++ (if ltb_ℤ (pos 0) limit
        then set (codes "docker_rate_limit") [] (number limit)
          ∷ set (codes "docker_rate_limit_used") [] (fraction (minus_ℤ limit remaining) limit)
          ∷ []
        else [])

unfoldable pub docker_gauges : Dict Text → List Observation
unfolding docker_value
docker_gauges h =
    docker_set (docker_value (get_header (codes "RateLimit-Remaining") h))
      (docker_value (get_header (codes "RateLimit-Limit") h))

abbrev pub labels : Config → Option Text → Request → Labels
labels cfg code r = record {
  code = code;
  method = r.method;
  host = bucketize cfg r.host;
  service_name = cfg.service_name;
  revision_name = cfg.revision_name;
  ce_type = get_header ce_type_header r.header;
}

-- The label of an answer.
unfoldable pub code_of : Result Response → Text
unfolding map_error_to_label
code_of (returns resp) = format_nat resp.status_code
code_of (fails e) = map_error_to_label e
