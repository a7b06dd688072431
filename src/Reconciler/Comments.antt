-- ===== src/Reconciler/Comments.antt =====
-- pkg/githubreconciler/state.go: the state that a reconciler keeps in a comment on the issue or the
-- pull request. encoding/json, net/url and the calls of go-github are parameters; the environment
-- and the answer of the metadata server are arguments.
pub mod Calls
pub mod Extract
pub mod Pages
pub mod Commits
pub mod Writing
use terraform_cloudrun_glue.Base.{
  ℕ, zero, suc, ◌+◌, ◌≡◌, Bool, true, false, ◌&&◌, Option, none, some, List, [], ◌∷◌, ◌++◌,
  if◌then◌else◌, ℤ, Text, codes, text_eq, contains, index, length, take, drop, trim_space,
  trim_prefix, trim_suffix, Result, returns, fails, format_int, ◌==◌,
}
use terraform_cloudrun_glue.Reconciler.{Resource, issue, pull_request, ResourceType}

-- encoding/json at the type of the state, MarshalIndent with "  " and Unmarshal, and
-- url.QueryEscape.
pub record Packages : Type 1 where
  pub Value : Type 0
  pub marshal_indent : Value → Result Text
  pub unmarshal : Text → Result Value
  pub query_escape : Text → Text

pub record State : Type 0 where
  pub identity : Text
  pub resource : Resource
  pub project_id : Text
  pub service_name : Text

-- os.Getenv with a default.
abbrev or_default : Text → Text → Text
or_default value default = if text_eq value [] then default else value

-- getProjectID: what the metadata server answers, and the variable GCP_PROJECT.
unfoldable pub get_project_id : Result Text → Text → Text
get_project_id (returns project) gcp_project = project
get_project_id (fails e) gcp_project = or_default gcp_project (codes "unknown-project")

-- NewState, given what the metadata server answers and the variables GCP_PROJECT and K_SERVICE.
unfoldable pub new_state : Result Text → (gcp_project k_service : Text) → Text → Resource → State
unfolding get_project_id
new_state answer gcp_project k_service identity resource = record {
  identity = identity;
  resource = resource;
  project_id = get_project_id answer gcp_project;
  service_name = or_default k_service (codes "unknown-service");
}

unfoldable pub get_state_marker : State → Text
get_state_marker s = codes "<!--" ++ (s.identity ++ codes "-state-->")

unfoldable pub state_end_marker : State → Text
state_end_marker s = codes "<!--/" ++ (s.identity ++ codes "-state-->")

unfoldable pub get_identity_marker : State → Text
get_identity_marker s = codes "<!--" ++ (s.identity ++ codes "-->")

-- The robot's face in UTF-8.
abbrev robot : Text
robot = 240 ∷ 159 ∷ 164 ∷ 150 ∷ []

abbrev kind_in_url : ResourceType → Text
kind_in_url issue = codes "/issues/"
kind_in_url pull_request = codes "/pull/"

abbrev resource_url : Resource → Text
resource_url r =
    codes "https://github.com/"
    ++ (r.owner ++ (codes "/" ++ (r.repo ++ (kind_in_url r.type ++ format_int r.number))))

abbrev logs_url : (service encoded project : Text) → Text
logs_url service encoded project =
    codes "https://console.cloud.google.com/logs/query;query=resource.type%20%3D%20%22"
    ++ (codes "cloud_run_revision%22%0Aresource.labels.service_name%20%3D%20%22"
        ++ (service
            ++ (codes "%22%0AjsonPayload.key%3D%22"
                ++ (encoded
                    ++ (codes
                          "%22;storageScope=project;summaryFields=:false:32:beginning;duration=P2D"
                        ++ (codes "?project=" ++ project))))))

-- The text between the markers, given the body from the end of the first one.
unfoldable pub extract_json : State → Text → Option Text
unfolding state_end_marker
extract_json s rest = elim (index rest (state_end_marker s)) [
  | none ↦ none
  | some n ↦ some (
      trim_space
        (trim_suffix (trim_prefix (trim_space (take n rest)) (codes "<!--")) (codes "-->")))
]

module _ (p : Packages) where
  unfoldable pub build_bot_info_block : State → Text
  build_bot_info_block s =
      codes "*"
      ++ (robot
          ++ (codes ": "
              ++ (s.identity
                  ++ (codes " ([logs]("
                      ++ (logs_url s.service_name (p.query_escape (resource_url s.resource))
                            s.project_id
                          ++ codes "))*")))))

  unfoldable pub build_comment_content : State → (state_json message : Text) → Text
  unfolding get_state_marker get_identity_marker state_end_marker
  build_comment_content s state_json message =
      get_identity_marker s
      ++ (codes "\n\n"
          ++ (build_bot_info_block s
              ++ (codes "\n\n---\n\n"
                  ++ (message
                      ++ (codes "\n\n"
                          ++ (get_state_marker s
                              ++ (codes "\n<!--\n"
                                  ++ (state_json ++ (codes "\n-->\n" ++ state_end_marker s)))))))))

  abbrev pub unmarshalled : Result p.Value → Result (Option p.Value)
  unmarshalled (returns v) = returns (some v)
  unmarshalled (fails e) = fails (codes "failed to unmarshal state: " ++ e)

  abbrev pub unmarshal_json : Option Text → Result (Option p.Value)
  unmarshal_json none = fails (codes "malformed state: missing end marker")
  unmarshal_json (some json) = unmarshalled (p.unmarshal json)

  unfoldable pub extract_state : State → Text → Result (Option p.Value)
  unfolding get_state_marker extract_json
  extract_state s body = elim (index body (get_state_marker s)) [
    | none ↦ returns none
    | some n ↦ unmarshal_json (extract_json s (drop (n + length (get_state_marker s)) body))
  ]
