-- ===== src/Reconciler/Comments/Calls.antt =====
-- pkg/githubreconciler/state.go: Fetch and Commit over the calls of go-github.
use terraform_cloudrun_glue.Base.{
  ℕ, zero, suc, Bool, true, false, Option, none, some, List, [], ◌∷◌, ◌++◌, if◌then◌else◌, ℤ, Text,
  codes, text_eq, contains, Result, returns, fails, ◌==◌,
}
use terraform_cloudrun_glue.Reconciler.Comments.{
  Packages, State, get_state_marker, get_identity_marker, build_comment_content, extract_state,
}

pub record Comment : Type 0 where
  pub id : ℤ
  pub body : Option Text

-- The calls of go-github's issues service, where `Store` is GitHub's state.
pub record Issues : Type 1 where
  pub Store : Type 0
  -- ListComments of a page of 100: its comments and the next page, 0 when there is none.
  pub list_comments :
      (owner repo : Text) → (number : ℤ) → (page : ℕ) → Store → Result (List Comment × ℕ)
  -- EditComment, given the new body.
  pub edit_comment :
      (owner repo : Text) → (comment : ℤ) → (body : Text) → Store → Result Unit × Store
  -- CreateComment, given the body.
  pub create_comment :
      (owner repo : Text) → (number : ℤ) → (body : Text) → Store → Result Unit × Store

-- Whether a loop stops at the comment: its body contains the marker.
abbrev pub is_marked : Text → Comment → Bool
is_marked marker c = elim (c.body) [ none ↦ false | some b ↦ contains b marker ]

unfoldable pub first_marked : Text → List Comment → Option Comment
first_marked marker [] = none
first_marked marker (c ∷ cs) = if is_marked marker c then some c else first_marked marker cs

module _ (is : Issues) where
  -- The loop over the pages, and `none` where they are more than the fuel.
  unfoldable pub find_from : State → ℕ → (page : ℕ) → is.Store → Option (Result (Option Comment))
  unfolding first_marked get_identity_marker
  find_from s zero page store = none
  find_from s (suc fuel) page store =
      elim (is.list_comments s.resource.owner s.resource.repo s.resource.number page store) [
        | fails e ↦ some (fails e)
        | returns (comments, next) ↦ elim (first_marked (get_identity_marker s) comments) [
          | some c ↦ some (returns (some c))
          | none ↦ elim (next == 0) [
            | true ↦ some (returns none)
            | false ↦ find_from s fuel next store
          ]
        ]
      ]

  unfoldable pub find_existing_comment : State → ℕ → is.Store → Option (Result (Option Comment))
  unfolding find_from
  find_existing_comment s fuel store = find_from s fuel 0 store

module _ (p : Packages) (is : Issues) where
  -- What Fetch makes of the comment: a state that cannot be read is only logged.
  abbrev logged : Result (Option p.Value) → Option p.Value
  logged (returns v) = v
  logged (fails e) = none

  abbrev pub read_body : State → Option Text → Option p.Value
  read_body s none = none
  read_body s (some b) =
      if contains b (get_state_marker s) then logged (extract_state p s b) else none

  unfoldable pub fetch_from : State → ℕ → (page : ℕ) → is.Store → Option (Result (Option p.Value))
  unfolding first_marked get_identity_marker get_state_marker extract_state
  fetch_from s zero page store = none
  fetch_from s (suc fuel) page store =
      elim (is.list_comments s.resource.owner s.resource.repo s.resource.number page store) [
        | fails e ↦ some (fails (codes "failed to list comments: " ++ e))
        | returns (comments, next) ↦ elim (first_marked (get_identity_marker s) comments) [
          | some c ↦ some (returns (read_body s c.body))
          | none ↦ elim (next == 0) [
            | true ↦ some (returns none)
            | false ↦ fetch_from s fuel next store
          ]
        ]
      ]

  unfoldable pub fetch : State → ℕ → is.Store → Option (Result (Option p.Value))
  unfolding fetch_from
  fetch s fuel store = fetch_from s fuel 0 store

  abbrev pub wrapped : Text → Result Unit × is.Store → Result Unit × is.Store
  wrapped what (returns u, store) = (returns tt, store)
  wrapped what (fails e, store) = (fails (what ++ e), store)

  abbrev pub is_unchanged : Option Text → Text → Bool
  is_unchanged none content = false
  is_unchanged (some b) content = text_eq b content

  -- What Commit does with the comment that it has found, or with none.
  unfoldable pub write_content :
      State → (content : Text) → Option Comment → is.Store → Result Unit × is.Store
  write_content s content (some c) store =
      if is_unchanged c.body content
      then (returns tt, store)
      else wrapped (codes "failed to update comment: ")
          (is.edit_comment s.resource.owner s.resource.repo c.id content store)
  write_content s content none store =
      wrapped (codes "failed to create comment: ")
        (is.create_comment s.resource.owner s.resource.repo s.resource.number content store)

  -- What Commit does with the answer of findExistingComment.
  abbrev pub write_found :
      State
      → (content : Text) → is.Store
      → Option (Result (Option Comment))
      → Option (Result Unit × is.Store)
  write_found s content store none = none
  write_found s content store (some (fails e)) =
      some (fails (codes "failed to find existing comment: " ++ e), store)
  write_found s content store (some (returns c)) = some (write_content s content c store)

  unfoldable pub commit :
      State → ℕ → p.Value → (message : Text) → is.Store → Option (Result Unit × is.Store)
  unfolding find_existing_comment build_comment_content write_content
  commit s fuel value message store = elim (p.marshal_indent value) [
    | fails e ↦ some (fails (codes "failed to marshal state: " ++ e), store)
    | returns json ↦
        write_found s (build_comment_content p s json message) store
          (find_existing_comment is s fuel store)
  ]
