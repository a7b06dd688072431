-- ===== src/Tests/Transports.antt =====
-- An instrumented round tripper at a concrete request.
use terraform_cloudrun_glue.Base.{ℕ, ◌≡◌, false, [], ◌∷◌, pos, Text, codes, Dict, returns}
use terraform_cloudrun_glue.HttpMetrics.{
  Request, Config, restore_traceparent_header, preserve_traceparent_header,
}
use terraform_cloudrun_glue.HttpMetrics.Transport.{RoundTripper, wrap_transport}
use terraform_cloudrun_glue.HttpMetrics.Recording.{Records, wrap_transport-Records}

abbrev config : Config
config = record {
  buckets = (codes "api.github.com", codes "github") ∷ [];
  bucket_suffixes = (codes "docker.io", codes "docker") ∷ [];
  skip_bucketize = false;
  service_name = codes "s";
  revision_name = codes "s-1";
}

abbrev request : Request
request = record { method = codes "GET"; host = codes "api.github.com"; header = [] }

abbrev github_header : Dict Text
github_header =
    (codes "X-RateLimit-Limit", codes "60") ∷ (codes "X-RateLimit-Remaining", codes "59") ∷ []

-- The state counts the requests and is the clock.
abbrev transport : RoundTripper ℕ
transport r n = (returns (record { status_code = 200; header = github_header }), 1)

wrap_transport-Records_example :
    let q = preserve_traceparent_header (restore_traceparent_header request) in
    let m = wrap_transport config (λ n. pos n) (λ r. r) transport request (0, []) in
    (m.0 ≡ (transport q 0).0)
    × (m.1.0 ≡ (transport q 0).1)
    × Records config
        (restore_traceparent_header request)
        (pos 0)
        (pos (transport q 0).1)
        (transport q 0).0
        []
        m.1.1
wrap_transport-Records_example =
    wrap_transport-Records config (λ n. pos n) (λ r. r) transport request 0 []
