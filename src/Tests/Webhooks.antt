-- ===== src/Tests/Webhooks.antt =====
-- The trampoline at concrete inputs.
use terraform_cloudrun_glue.Base.{
  ◌≡◌, false, true, none, some, [], ◌∷◌, ◌↔◌, ◌⊎◌, Memᴰ, pos, Text, codes, text_eq, if◌then◌else◌,
}
use terraform_cloudrun_glue.Trampoline.{
  PayloadInfo, Server, Request, Packages, Event, validate_payload, serve_http,
  extract_pull_request_url, extract_issue_url, event_of,
}
use terraform_cloudrun_glue.Trampoline.Filters.{Forwards, forwarded_iff, status-delivered}
use terraform_cloudrun_glue.Trampoline.Links.{links_apart}
use terraform_cloudrun_glue.Trampoline.Secrets.{Validates, validate_payload_lem}

abbrev comment : PayloadInfo
comment = record {
  action = codes "created";
  number = pos 0;
  repository_full_name = codes "o/r";
  repository_owner_login = codes "o";
  repository_name = codes "r";
  organization_login = codes "o";
  pull_request_number = pos 0;
  pull_request_merged = false;
  issue_number = pos 7;
  issue_pull_request_info = true;
  check_run_pull_requests = [];
  check_suite_pull_requests = [];
  comment_id = pos 1;
  review_id = pos 0;
}

-- Packages whose signatures are the secret itself.
abbrev plain_packages : Packages
plain_packages = record {
  sha256_signature_header = codes "X-Hub-Signature-256";
  sha1_signature_header = codes "X-Hub-Signature";
  parse_media_type = some;
  validate_payload_from_body =
      λ content_type body signature secret. if text_eq signature secret then some body else none;
  web_hook_type = λ r. r.header (codes "X-GitHub-Event");
  delivery_id = λ r. r.header (codes "X-GitHub-Delivery");
  unmarshal = λ payload. comment;
  marshal = λ d. some (d.body);
  undelivered = λ e. false;
}

abbrev headers : Text → Text
headers name =
    if text_eq name (codes "X-Hub-Signature-256")
    then codes "s2"
    else if text_eq name (codes "X-GitHub-Event")
    then codes "issue_comment"
    else codes "x"

abbrev hook : Request
hook = record { host = codes "h"; header = headers; body = some (codes "{}") }

abbrev server : Server
server = record {
  secrets = codes "s1" ∷ codes "s2" ∷ [];
  webhook_id = [];
  requested_only_webhook = [];
  org_filter = codes "o" ∷ [];
}

abbrev forwarded : Event
forwarded = event_of plain_packages hook comment (codes "{}")

forwarded_iff_example : ((serve_http plain_packages server (pos 1) hook).sent ≡ forwarded ∷ []) ↔ (
    (p : Text) × (validate_payload plain_packages hook server.secrets ≡ some p)
    × ((content : Text) × Forwards plain_packages server (pos 1) hook forwarded p content))
forwarded_iff_example = forwarded_iff plain_packages server (pos 1) hook forwarded

status-delivered_example : ((serve_http plain_packages server (pos 1) hook).status ≡ 200) ↔ (
    (e : Event) × ((serve_http plain_packages server (pos 1) hook).sent ≡ e ∷ []) × (false ≡ false))
status-delivered_example = status-delivered plain_packages server (pos 1) hook

validate_payload_lem_example :
    ((p : Text)
      → validate_payload plain_packages hook server.secrets ≡ some p
      → (k : Text) × Memᴰ k server.secrets × Validates plain_packages hook k p)
    × ((k p : Text)
        → Memᴰ k server.secrets
        → Validates plain_packages hook k p
        → (q : Text) × (validate_payload plain_packages hook server.secrets ≡ some q))
validate_payload_lem_example = validate_payload_lem plain_packages hook server.secrets

links_apart_example :
    (extract_pull_request_url (codes "issue_comment") comment ≡ [])
    ⊎ (extract_issue_url (codes "issue_comment") comment ≡ [])
links_apart_example = links_apart (codes "issue_comment") comment
