-- ===== src/Sdk/Contents.antt =====
-- modules/github-bots/sdk/github.go: tokens, artifacts, and the files and releases of a repository.
use terraform_cloudrun_glue.Base.{
  ℕ, ◌*◌, ◌^◌, Bool, true, false, not, Option, none, some, List, [], ◌∷◌, ◌++◌, if◌then◌else◌, ◌==◌,
  ℤ, pos, ◌+ℤ◌, Text, codes, text_eq, Result, returns, fails, format_int,
}
use terraform_cloudrun_glue.Sdk.Clients.{
  message, Verdict, fine, failed, panics, Answer, Artifact, Api, validate_response,
  list_artifacts_from,
}

-- octosts, where `World` is its state: a new token for a policy, and the end of a token.
pub record Tokens : Type 1 where
  pub World : Type 0
  pub token : (policy org repo : Text) → World → Result Text × World
  pub revoke : Text → World → Result Unit × World

pub record TokenSource : Type 0 where
  pub org : Text
  pub repo : Text
  pub policy_name : Text
  pub tok : Text

pub record Token : Type 0 where
  pub access_token : Text
  pub expiry : ℤ

module _ (ts : Tokens) where
  -- The previous token is revoked, and that it cannot be is only logged.
  abbrev revoked : Text → ts.World → ts.World
  revoked [] w = w
  revoked (c ∷ tok) w = (ts.revoke (c ∷ tok) w).1

  -- tokenSource.Token, with the 45 minutes that a token is used.
  unfoldable pub source_token :
      (now : ℤ) → TokenSource → ts.World → Result Token × (TokenSource × ts.World)
  source_token now s w =
      let (r, w1) = ts.token s.policy_name s.org s.repo w in
      elim r [
        | fails e ↦ (fails e, (s, w1))
        | returns tok ↦ (
          returns (record { access_token = tok; expiry = now +ℤ pos (45 * 60 * 10 ^ 9) }),
          (record s { tok = tok }, revoked s.tok w1),
        )
      ]

  -- GitHubClient.Close, given what its token source answers.
  unfoldable pub close : Result Token → ts.World → Result Unit × ts.World
  close (fails e) w = (fails (codes "getting token for revocation: " ++ e), w)
  close (returns t) w =
      let (r, w1) = ts.revoke t.access_token w in
      elim r [
        | fails e ↦ (fails (codes "revoking token: " ++ e), w1)
        | returns u ↦ (returns tt, w1)
      ]

-- GitAuth: the user's name and the password.
unfoldable pub git_auth : Result Token → Result (Text × Text)
git_auth (fails e) = fails (codes "getting token from client's token source: " ++ e)
git_auth (returns t) = returns (codes "x-access-token", t.access_token)

-- A value that is returned when the response is found valid.
abbrev pub if_fine : {A : Type 0} → Verdict → A → Verdict × Option A
if_fine fine a = (fine, some a)
if_fine (failed e) a = (failed e, none)
if_fine panics a = (panics, none)

module _ (now : ℤ) where
  unfoldable pub get_release :
      {Release : Type 0} → (tag : Text) → Release → Answer → Verdict × Option Release
  unfolding validate_response
  get_release tag release (some e, resp) =
      (failed (message (codes "failed to get release by tag " ++ (tag ++ (codes ": " ++ e)))), none)
  get_release tag release (none, resp) =
      if_fine (validate_response now none resp (codes "get release by tag " ++ tag)) release

  abbrev contents_action : (what path ref : Text) → Text
  contents_action what path ref = what ++ (path ++ (codes " at ref " ++ ref))

  abbrev decoded : Verdict × Option (Result Text) → Verdict × Text
  decoded (v, none) = (v, [])
  decoded (v, some (fails e)) = (failed (message (codes "failed to decode content: " ++ e)), [])
  decoded (v, some (returns content)) = (v, content)

  -- `content` is what GetContent makes of the file that GetContents answers.
  unfoldable pub get_file_content :
      (path ref : Text) → (content : Result Text) → Answer → Verdict × Text
  unfolding validate_response
  get_file_content path ref content (err, resp) = decoded (
      if_fine
        (validate_response now err resp (contents_action (codes "get file contents for ") path ref))
        content)

  unfoldable pub list_files :
      {Content : Type 0}
      → (path ref : Text) → List Content
      → Answer
      → Verdict × Option (List Content)
  unfolding validate_response
  list_files path ref contents (err, resp) =
      if_fine
        (validate_response now err resp
          (contents_action (codes "list file contents for ") path ref))
        contents

  -- The queries of the two searches, and what each makes of the answer to its query: an error comes
  -- with an empty result.
  unfoldable pub content_query : (owner repo path content : Text) → Text
  content_query owner repo path content =
      content
      ++ (codes " in:file filename:"
          ++ (path ++ (codes " repo:" ++ (owner ++ (codes "/" ++ repo)))))

  unfoldable pub filename_query : (owner repo path : Text) → Text
  filename_query owner repo path =
      codes "filename:" ++ (path ++ (codes " repo:" ++ (owner ++ (codes "/" ++ repo))))

  unfoldable pub search_content_in_filename :
      {Found : Type 0}
      → (owner repo path content : Text) → (code : Text → Found × Answer) → Verdict × Option Found
  unfolding validate_response content_query
  search_content_in_filename owner repo path content code =
      let (result, (err, resp)) = code (content_query owner repo path content) in
      if_fine
        (validate_response now err resp
          (codes "search content " ++ (content ++ codes " in repository")))
        result

  unfoldable pub search_filename_in_repository :
      {Found : Type 0}
      → (owner repo path : Text) → (code : Text → Found × Answer) → Verdict × Option Found
  unfolding validate_response filename_query
  search_filename_in_repository owner repo path code =
      let (result, (err, resp)) = code (filename_query owner repo path) in
      if_fine
        (validate_response now err resp
          (codes "search filename " ++ (path ++ codes " in repository")))
        result

-- What DownloadArtifact answers: the status and the place of the archive.
pub record Download : Type 0 where
  pub status_code : ℕ
  pub status : Text
  pub url : Text

module _ {Zip : Type 0} (api : Api) (now : ℤ) (download : ℤ → Result Download)
    (open_zip : Text → Result Zip) where
  abbrev artifact_text : (what name : Text) → ℤ → Text → Text
  artifact_text what name id e =
      what ++ (name ++ (codes ") [" ++ (format_int id ++ (codes "]: " ++ e))))

  -- The function that FetchWorkflowRunArtifact gives to ListArtifactsFunc. `open_zip` is the reader
  -- over the place of the archive, whose zip.Reader it makes.
  unfoldable pub fetch_artifact : (name : Text) → Artifact → Option Zip → Result Bool × Option Zip
  unfolding text_eq
  fetch_artifact name a zr =
      if not (text_eq a.name name) then (returns false, zr) else elim (download a.id) [
        | fails e ↦ (fails (artifact_text (codes "failed to download artifact (") name a.id e), zr)
        | returns d ↦
            if not (d.status_code == 302)
            then (fails (artifact_text (codes "failed to find artifact (") name a.id d.status), zr)
            else elim (open_zip d.url) [
              | fails e ↦ (fails e, zr)
              | returns z ↦ (returns true, some z)
            ]
      ]

  abbrev pub or_not_found : (name : Text) → ℤ → Verdict × Option Zip → Verdict × Option Zip
  or_not_found name run (failed e, zr) = (failed e, none)
  or_not_found name run (panics, zr) = (panics, none)
  or_not_found name run (fine, some z) = (fine, some z)
  or_not_found name run (fine, none) = (
    failed (
        message (
          codes "artifact "
          ++ (name ++ (codes " for workflow_run " ++ (format_int run ++ codes " not found"))))),
    none,
  )

  abbrev pub checked :
      (name : Text) → ℤ → Option (Verdict × Option Zip) → Option (Verdict × Option Zip)
  checked name run none = none
  checked name run (some r) = some (or_not_found name run r)

  unfoldable pub fetch_workflow_run_artifact :
      (owner repo : Text)
      → (run : ℤ) → (name : Text) → ℕ
      → api.Store
      → Option (Verdict × Option Zip)
  unfolding list_artifacts_from fetch_artifact
  fetch_workflow_run_artifact owner repo run name fuel store =
      checked name run
        (list_artifacts_from api now (fetch_artifact name) owner repo run fuel 0 store none)
