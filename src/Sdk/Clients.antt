-- ===== src/Sdk/Clients.antt =====
-- modules/github-bots/sdk/github.go: what the bots' client makes of GitHub's answers. The calls of
-- go-github, octosts and archive/zip are parameters.
use terraform_cloudrun_glue.Base.{
  ℕ, zero, suc, ◌+◌, ◌*◌, ◌^◌, Bool, true, false, ◌||◌, not, Option, none, some, List, [], ◌∷◌,
  ◌++◌, if◌then◌else◌, ◌==◌, ℤ, pos, sub_ℕ, pos_part, neg_part, Text, codes, text_eq, found,
  contains, Result, returns, fails, first_by,
}

-- What github.CheckResponse makes of a response that is no success. A time is in nanoseconds.
pub data CheckError : Type 0 where
  rate_limit_error : (reset : ℤ) → CheckError
  abuse_rate_limit_error : (retry_after : Option ℤ) → CheckError
  other_error : CheckError

pub record Reply : Type 0 where
  pub status_code : ℕ
  pub status : Text
  pub check : Option CheckError
  pub next_page : ℕ

abbrev pub default_delay : ℤ
default_delay = pos (30 * 10 ^ 9)

-- GetRetryAfter, which is 0 where there is none.
abbrev retry_after_or_zero : Option ℤ → ℤ
retry_after_or_zero none = pos 0
retry_after_or_zero (some d) = d

-- checkRateLimiting: whether the error is one of a limit, and the delay.
unfoldable pub check_rate_limiting : (now : ℤ) → CheckError → Bool × ℤ
check_rate_limiting now (rate_limit_error reset) =
    (true, sub_ℕ (pos_part reset + neg_part now) (pos_part now + neg_part reset))
check_rate_limiting now (abuse_rate_limit_error d) = (true, retry_after_or_zero d)
check_rate_limiting now other_error = (false, default_delay)

pub data Failure : Type 0 where
  message : Text → Failure
  hit_rate_limiting : (delay : ℤ) → Failure

-- No error, an error, or the panic of a response that is nil.
pub data Verdict : Type 0 where
  fine : Verdict
  failed : Failure → Verdict
  panics : Verdict

abbrev pub as_verdict : Option Text → Verdict
as_verdict none = fine
as_verdict (some e) = failed (message e)

abbrev pub unless_limited : Option Text → Bool × ℤ → Verdict
unless_limited err (false, delay) = as_verdict err
unless_limited err (true, delay) = failed (hit_rate_limiting delay)

-- The part of validateResponse for a response that CheckResponse accepts.
abbrev pub judge : Option Text → Reply → (action : Text) → Verdict
judge (some e) r action =
    failed
      (message (codes "failed to " ++ (action ++ (codes ": " ++ (e ++ (codes " " ++ r.status))))))
judge none r action =
    if not (r.status_code == 200)
    then failed (message (codes "failed to " ++ (action ++ (codes ": " ++ r.status))))
    else fine

unfoldable pub validate_response :
    (now : ℤ) → Option Text → Option Reply → (action : Text) → Verdict
unfolding check_rate_limiting
validate_response now err (some r) action = elim (r.check) [
  | some e ↦ unless_limited err (check_rate_limiting now e)
  | none ↦ judge err r action
]
validate_response now (some e) none action =
    failed (message (codes "failed to " ++ (action ++ (codes ": " ++ e))))
validate_response now none none action = panics

unfoldable pub repo_url : (org repo : Text) → Result Text
unfolding text_eq
repo_url org repo =
    if text_eq org [] || text_eq repo []
    then fails (codes "GitHubClient is not configured with both an org and repo")
    else returns (codes "https://github.com/" ++ (org ++ (codes "/" ++ (repo ++ codes ".git"))))

-- The fields that the client reads of a pull request, of a comment, of a listed pull request and of
-- an artifact, which GitHub always sets.
pub record PullRequest : Type 0 where
  pub owner : Text
  pub repo : Text
  pub number : ℤ
  pub labels : List Text

pub record BotComment : Type 0 where
  pub id : ℤ
  pub body : Text

pub record Pull : Type 0 where
  pub head_sha : Text
  pub number : ℤ

pub record Artifact : Type 0 where
  pub id : ℤ
  pub name : Text

abbrev pub Answer : Type 0
Answer = Option Text × Option Reply

-- The calls, where `Store` is GitHub's state.
pub record Api : Type 1 where
  pub Store : Type 0
  pub add_labels_to_issue : (owner repo : Text) → ℤ → List Text → Store → Answer × Store
  pub remove_label_for_issue : (owner repo : Text) → ℤ → Text → Store → Answer × Store
  -- ListComments without options: the first page.
  pub list_comments : (owner repo : Text) → ℤ → Store → Result (List BotComment)
  pub edit_comment : (owner repo : Text) → ℤ → (body : Text) → Store → Answer × Store
  pub create_comment : (owner repo : Text) → ℤ → (body : Text) → Store → Answer × Store
  -- PullRequests.List of the open ones with this head: a page and the next one.
  pub list_pulls : (owner repo head : Text) → (page : ℕ) → Store → Result (List Pull × ℕ)
  pub list_artifacts : (owner repo : Text) → (run : ℤ) → (page : ℕ) → Store → Answer × List Artifact

-- The marker that the bots' comments begin with.
unfoldable pub bot_marker : (bot_name : Text) → Text
bot_marker bot_name = codes "<!-- bot:" ++ (bot_name ++ codes " -->")

unfoldable pub marked_content : (bot_name content : Text) → Text
unfolding bot_marker
marked_content bot_name content = bot_marker bot_name ++ (codes "\n\n" ++ content)

module _ (api : Api) (now : ℤ) where
  abbrev pub validated : (action : Text) → Answer × api.Store → Verdict × api.Store
  validated action ((err, resp), store) = (validate_response now err resp action, store)

  unfoldable pub add_label : PullRequest → (label : Text) → api.Store → Verdict × api.Store
  unfolding found validate_response
  add_label pr label store =
      if found label pr.labels
      then (fine, store)
      else validated (codes "add label to pull request")
          (api.add_labels_to_issue pr.owner pr.repo pr.number (label ∷ []) store)

  unfoldable pub remove_label : PullRequest → (label : Text) → api.Store → Verdict × api.Store
  unfolding found validate_response
  remove_label pr label store =
      if not (found label pr.labels)
      then (fine, store)
      else validated (codes "remove label from pull request")
          (api.remove_label_for_issue pr.owner pr.repo pr.number label store)

  -- A comment's answer is validated only if it is an error or not of the status expected; without a
  -- response there is a panic.
  abbrev pub expecting : ℕ → (action : Text) → Answer × api.Store → Verdict × api.Store
  expecting code action ((some e, resp), store) =
      (validate_response now (some e) resp action, store)
  expecting code action ((none, none), store) = (panics, store)
  expecting code action ((none, some r), store) =
      if not (r.status_code == code)
      then (validate_response now none (some r) action, store)
      else (fine, store)

  abbrev pub has_marker : (bot_name : Text) → BotComment → Bool
  has_marker bot_name c = contains c.body (bot_marker bot_name)

  -- SetComment with what its loop finds among the comments.
  abbrev pub set_found :
      PullRequest → (content : Text) → Option BotComment → api.Store → Verdict × api.Store
  set_found pr content (some c) store =
      expecting 200 (codes "editing comment") (api.edit_comment pr.owner pr.repo c.id content store)
  set_found pr content none store =
      expecting 201 (codes "create comment")
        (api.create_comment pr.owner pr.repo pr.number content store)

  unfoldable pub set_comment :
      PullRequest → (bot_name content : Text) → api.Store → Verdict × api.Store
  unfolding marked_content first_by validate_response
  set_comment pr bot_name content store =
      elim (api.list_comments pr.owner pr.repo pr.number store) [
        | fails e ↦ (failed (message (codes "listing comments: " ++ e)), store)
        | returns cs ↦
            set_found pr (marked_content bot_name content) (first_by (has_marker bot_name) cs) store
      ]

  unfoldable pub add_comment :
      PullRequest → (bot_name content : Text) → api.Store → Verdict × api.Store
  unfolding marked_content validate_response
  add_comment pr bot_name content store =
      expecting 201 (codes "creating comment")
        (api.create_comment pr.owner pr.repo pr.number (marked_content bot_name content) store)

  -- The loop of GetWorkloadRunPullRequestNumber, and `none` where the pages are more than the fuel.
  unfoldable pub pull_from :
      (owner repo head sha : Text) → ℕ → (page : ℕ) → api.Store → Option (Result ℤ)
  unfolding first_by
  pull_from owner repo head sha zero page store = none
  pull_from owner repo head sha (suc fuel) page store =
      elim (api.list_pulls owner repo head page store) [
        | fails e ↦ some (fails (codes "failed to list pull requests: " ++ e))
        | returns (pulls, next) ↦ elim (first_by (λ p. text_eq p.head_sha sha) pulls) [
          | some p ↦ some (returns p.number)
          | none ↦ elim (next == 0) [
            | true ↦ some (fails (codes "no matching pull request found"))
            | false ↦ pull_from owner repo head sha fuel next store
          ]
        ]
      ]

  unfoldable pub get_workload_run_pull_request_number :
      (owner repo head_branch head_sha : Text) → ℕ → api.Store → Option (Result ℤ)
  unfolding pull_from
  get_workload_run_pull_request_number owner repo head_branch head_sha fuel store =
      pull_from owner repo (owner ++ (codes ":" ++ head_branch)) head_sha fuel 0 store

  -- ListArtifactsFunc: `visit` is its function, over a state of its own, and says whether to stop.
  module _ {S : Type 0} (visit : Artifact → S → Result Bool × S) where
    -- The loop over a page: whether it goes on, stops, or fails.
    unfoldable pub visit_all : List Artifact → S → Result Bool × S
    visit_all [] s = (returns false, s)
    visit_all (a ∷ rest) s =
        let (r, s1) = visit a s in
        elim r [
          | fails e ↦ (fails e, s1)
          | returns stop ↦ elim stop [ true ↦ (returns true, s1) | false ↦ visit_all rest s1 ]
        ]

    abbrev pub page_after : Option Reply → ℕ
    page_after none = 0
    page_after (some r) = r.next_page

    unfoldable pub list_artifacts_from :
        (owner repo : Text) → (run : ℤ) → ℕ → (page : ℕ) → api.Store → S → Option (Verdict × S)
    unfolding validate_response visit_all
    list_artifacts_from owner repo run zero page store s = none
    list_artifacts_from owner repo run (suc fuel) page store s =
        let ((err, resp), artifacts) = api.list_artifacts owner repo run page store in
        elim (validate_response now err resp (codes "list workflow artifacts")) [
          | failed e ↦ some (failed e, s)
          | panics ↦ some (panics, s)
          | fine ↦
              let (r, s1) = visit_all artifacts s in
              elim r [
                | fails e ↦ some (failed (message e), s1)
                | returns stop ↦ elim stop [
                  | true ↦ some (fine, s1)
                  | false ↦ elim (page_after resp == 0) [
                    | true ↦ some (fine, s1)
                    | false ↦ list_artifacts_from owner repo run fuel (page_after resp) store s1
                  ]
                ]
              ]
        ]
