-- ===== src/Trampoline.antt =====
-- modules/github-events/internal/trampoline/server.go: the service that checks GitHub's webhooks and
-- forwards them as cloud events. The anonymous structs of PayloadInfo are flattened into one record.
pub mod Filters
pub mod Links
pub mod Secrets
use terraform_cloudrun_glue.Base.{
  ℕ, ◌≡◌, Bool, true, false, not, ◌&&◌, ◌||◌, Option, none, some, List, [], ◌∷◌, ◌++◌,
  if◌then◌else◌, ℤ, pos, ltb_ℤ, Text, codes, text_eq, found, filtered, format_int,
}

pub record PayloadInfo : Type 0 where
  pub action : Text
  pub number : ℤ
  pub repository_full_name : Text
  pub repository_owner_login : Text
  pub repository_name : Text
  pub organization_login : Text
  pub pull_request_number : ℤ
  pub pull_request_merged : Bool
  pub issue_number : ℤ
  -- Whether PullRequestInfo is not nil.
  pub issue_pull_request_info : Bool
  pub check_run_pull_requests : List ℤ
  pub check_suite_pull_requests : List ℤ
  pub comment_id : ℤ
  pub review_id : ℤ

pub record Server : Type 0 where
  pub secrets : List Text
  pub webhook_id : List Text
  pub requested_only_webhook : List Text
  pub org_filter : List Text

-- What the handler reads of a request: `header` is Header.Get, and `body` is none where reading fails.
pub record Request : Type 0 where
  pub host : Text
  pub header : Text → Text
  pub body : Option Text

pub record EventHeaders : Type 0 where
  pub hook_id : Text
  pub delivery_id : Text
  pub user_agent : Text
  pub event : Text
  pub installation_target_type : Text
  pub installation_target_id : Text

pub record EventData : Type 0 where
  pub when : ℤ
  pub headers : EventHeaders
  pub body : Text

pub data Extension : Type 0 where
  text : Text → Extension
  flag : Bool → Extension

-- The arguments of the calls that fill the event, in their order.
pub record Event : Type 0 where
  pub id : Text
  pub type : Text
  pub source : Text
  pub subject : Text
  pub extensions : List (Text × Extension)
  pub content : Text

-- What the response's status is, and the events handed to the client.
pub record Served : Type 0 where
  pub status : ℕ
  pub sent : List Event

-- The packages the handler calls: mime, go-github, encoding/json and the cloud events client.
-- `unmarshal` gives the struct as Unmarshal leaves it, also where it fails; `undelivered` is the
-- test of the result of Send.
pub record Packages : Type 0 where
  pub sha256_signature_header : Text
  pub sha1_signature_header : Text
  pub parse_media_type : Text → Option Text
  pub validate_payload_from_body : Text → Text → Text → Text → Option Text
  pub web_hook_type : Request → Text
  pub delivery_id : Request → Text
  pub unmarshal : Text → PayloadInfo
  pub marshal : EventData → Option Text
  pub undelivered : Event → Bool

-- %s#%d with a repository and a number.
unfoldable pub extract_pull_request_info : Text → PayloadInfo → Text
unfolding text_eq
extract_pull_request_info event_type info =
    if not (text_eq event_type (codes "pull_request"))
    then []
    else if ltb_ℤ (pos 0) info.pull_request_number && not (text_eq info.repository_full_name [])
    then info.repository_full_name ++ codes "#" ++ format_int info.pull_request_number
    else []

abbrev first_number : List ℤ → ℤ
first_number [] = pos 0
first_number (n ∷ ns) = n

-- The switch on the type of the event.
unfoldable pub pull_request_number_of : Text → PayloadInfo → ℤ
unfolding text_eq
pull_request_number_of event_type info =
    if text_eq event_type (codes "pull_request")
    then info.pull_request_number
    else if text_eq event_type (codes "pull_request_review")
    then info.pull_request_number
    else if text_eq event_type (codes "pull_request_review_comment")
    then info.pull_request_number
    else if text_eq event_type (codes "issue_comment")
    then if info.issue_pull_request_info && ltb_ℤ (pos 0) info.issue_number
      then info.issue_number
      else pos 0
    else if text_eq event_type (codes "check_run")
    then first_number info.check_run_pull_requests
    else if text_eq event_type (codes "check_suite")
    then first_number info.check_suite_pull_requests
    else pos 0

unfoldable pub issue_number_of : Text → PayloadInfo → ℤ
unfolding text_eq
issue_number_of event_type info =
    if text_eq event_type (codes "issues")
    then info.issue_number
    else if text_eq event_type (codes "issue_comment")
    then if not info.issue_pull_request_info && ltb_ℤ (pos 0) info.issue_number
      then info.issue_number
      else pos 0
    else pos 0

-- https://github.com/<owner>/<repo>/<kind>/<number>, where all that is known.
abbrev github_url : Text → PayloadInfo → ℤ → Text
github_url kind info number =
    if text_eq info.repository_owner_login [] || text_eq info.repository_name []
    then []
    else if ltb_ℤ (pos 0) number
    then codes "https://github.com/"
      ++ info.repository_owner_login
      ++ codes "/"
      ++ info.repository_name
      ++ kind
      ++ format_int number
    else []

unfoldable pub extract_pull_request_url : Text → PayloadInfo → Text
unfolding pull_request_number_of
extract_pull_request_url event_type info =
    github_url (codes "/pull/") info (pull_request_number_of event_type info)

unfoldable pub extract_issue_url : Text → PayloadInfo → Text
unfolding issue_number_of
extract_issue_url event_type info =
    github_url (codes "/issues/") info (issue_number_of event_type info)

unfoldable pub is_pull_request_merged : Text → PayloadInfo → Bool
unfolding text_eq
is_pull_request_merged event_type info =
    text_eq event_type (codes "pull_request")
    && (text_eq info.action (codes "closed") && info.pull_request_merged)

unfoldable pub is_requested : Text → PayloadInfo → Bool
unfolding text_eq
is_requested t info =
    (text_eq t (codes "check_run") || text_eq t (codes "check_suite"))
    && (text_eq info.action (codes "requested")
        || text_eq info.action (codes "rerequested")
        || text_eq info.action (codes "requested_action"))

-- An extension that is set only to a text that is not empty.
abbrev extension : Text → Text → List (Text × Extension)
extension name value = if text_eq value [] then [] else (name, text value) ∷ []

unfoldable pub extensions : Text → Text → PayloadInfo → List (Text × Extension)
unfolding extract_pull_request_info extract_pull_request_url extract_issue_url
    is_pull_request_merged
extensions hook_id t info =
    (codes "action", text info.action)
    ∷ (extension (codes "githubhook") hook_id
        ++ extension (codes "pullrequest") (extract_pull_request_info t info)
        ++ extension (codes "pullrequesturl") (extract_pull_request_url t info)
        ++ extension (codes "issueurl") (extract_issue_url t info)
        ++ (if is_pull_request_merged t info then (codes "merged", flag true) ∷ [] else []))

module _ (lib : Packages) where
  -- The payload of the first secret that validates the body.
  unfoldable pub first_valid : Text → Text → Text → List Text → Option Text
  first_valid content_type body signature [] = none
  first_valid content_type body signature (secret ∷ secrets) =
      elim (lib.validate_payload_from_body content_type body signature secret) [
        | some payload ↦ some payload
        | none ↦ first_valid content_type body signature secrets
      ]

  abbrev pub signature_of : Request → Text
  signature_of r =
      let signature = r.header lib.sha256_signature_header in
      if text_eq signature [] then r.header lib.sha1_signature_header else signature

  -- ValidatePayload on the media type and the body, where these can be read.
  abbrev pub validate_read : Text → List Text → Option Text → Option Text → Option Text
  validate_read signature secrets none body = none
  validate_read signature secrets (some content_type) none = none
  validate_read signature secrets (some content_type) (some body) =
      first_valid content_type body signature secrets

  unfoldable pub validate_payload : Request → List Text → Option Text
  unfolding first_valid
  validate_payload r secrets =
      validate_read (signature_of r) secrets
        (lib.parse_media_type (r.header (codes "Content-Type"))) r.body

  abbrev pub hook_id_of : Request → Text
  hook_id_of r = r.header (codes "X-GitHub-Hook-ID")

  abbrev pub event_data : ℤ → Request → Text → EventData
  event_data now r payload = record {
    when = now;
    headers = record {
      hook_id = r.header (codes "X-GitHub-Hook-ID");
      delivery_id = r.header (codes "X-GitHub-Delivery");
      user_agent = r.header (codes "User-Agent");
      event = r.header (codes "X-GitHub-Event");
      installation_target_type = r.header (codes "X-GitHub-Installation-Target-Type");
      installation_target_id = r.header (codes "X-GitHub-Installation-Target-ID");
    };
    body = payload;
  }

  abbrev pub event_of : Request → PayloadInfo → Text → Event
  event_of r info content = record {
    id = lib.delivery_id r;
    type = codes "dev.chainguard.github." ++ lib.web_hook_type r;
    source = r.host;
    subject = info.repository_full_name;
    extensions = extensions (hook_id_of r) (lib.web_hook_type r) info;
    content = content;
  }

  abbrev pub respond : ℕ → Served
  respond status = record { status = status; sent = [] }

  -- SetData and Send: a status of 200 is what a handler that writes none answers.
  unfoldable pub forward : ℤ → Request → Text → PayloadInfo → Served
  unfolding extensions
  forward now r payload info = elim (lib.marshal (event_data now r payload)) [
    | none ↦ respond 500
    | some content ↦
        let event = event_of r info content in
        record { status = if lib.undelivered event then 500 else 200; sent = event ∷ [] }
  ]

  -- The handler after ValidatePayload.
  unfoldable pub serve_payload : Server → ℤ → Request → Text → Served
  unfolding is_requested forward
  serve_payload s now r payload =
      let t = lib.web_hook_type r in
      let info = lib.unmarshal payload in
      if text_eq t []
      then respond 400
      else if filtered (hook_id_of r) s.webhook_id
      then respond 202
      else if not (is_requested t info) && found (hook_id_of r) s.requested_only_webhook
      then respond 202
      else if filtered info.organization_login s.org_filter
      then respond 202
      else forward now r payload info

  unfoldable pub serve_http : Server → ℤ → Request → Served
  unfolding validate_payload serve_payload
  serve_http s now r = elim (validate_payload r s.secrets) [
    | none ↦ respond 403
    | some payload ↦ serve_payload s now r payload
  ]
