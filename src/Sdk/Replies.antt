-- ===== src/Sdk/Replies.antt =====
-- When the bots' client takes a call for a success, and which pull request it finds.
use terraform_cloudrun_glue.Base.{
  ℕ, zero, suc, ◌≤◌, ◌≡◌, refl, sym, ap, ◌∙◌, ◌⊎◌, ◌↔◌, inl, inr, Bool, true, false, not, Option,
  none, some, List, ◌++◌, if◌then◌else◌, ◌==◌, ==_iff, ℤ, Text, codes, text_eq, Result, returns,
  fails, first_by, first_by-append, ending, last_ending, next_ending, arith,
}
use terraform_cloudrun_glue.Sdk.Clients.{
  CheckError, Reply, check_rate_limiting, fine, failed, message, unless_limited, judge,
  validate_response, Pull, Api, pull_from, get_workload_run_pull_request_number,
}

-- Without an error go-github gives a response that CheckResponse accepts.
abbrev pub IsAnswer : Option Text → Option Reply → Type 0
IsAnswer err resp = err ≡ none → (r : Reply) × (resp ≡ some r) × (r.check ≡ none)

abbrev pub IsOk : Option Text → Option Reply → Type 0
IsOk err resp = (err ≡ none) × (r : Reply) × (resp ≡ some r) × (r.status_code ≡ 200)

unless_limited-error : (e : Text) (b : Bool × ℤ) → unless_limited (some e) b ≡ fine → ⊥
unless_limited-error e (false, d) h = cc
unless_limited-error e (true, d) h = cc

error-not_fine :
    (now : ℤ) (e : Text) (resp : Option Reply) (action : Text)
    → validate_response now (some e) resp action ≡ fine
    → ⊥
unfolding validate_response
error-not_fine now e none action h = cc
error-not_fine now e (some r) action h = by_check (r.check) h
  where
    by_check :
        (c : Option CheckError)
        → elim c [
          | some x ↦ unless_limited (some e) (check_rate_limiting now x)
          | none ↦ judge (some e) r action
        ]
          ≡ fine
        → ⊥
    by_check none h = cc
    by_check (some x) h = unless_limited-error e (check_rate_limiting now x) h

judge_iff : (r : Reply) (action : Text) → (judge none r action ≡ fine) ↔ (r.status_code ≡ 200)
judge_iff r action = (
  λ h. (==_iff r.status_code 200).0 (passes (r.status_code == 200) h),
  λ e. rw ((==_iff r.status_code 200).1 e) refl,
)
  where
    passes :
        (b : Bool)
        → (if not b
            then failed (message (codes "failed to " ++ (action ++ (codes ": " ++ r.status))))
            else fine)
          ≡ fine
        → b ≡ true
    passes true h = refl
    passes false h = absurd (cc)

validated :
    (now : ℤ) (r : Reply) (action : Text)
    → r.check ≡ none
    → validate_response now none (some r) action ≡ judge none r action
unfolding validate_response
validated now r action e = rw (e, validate_response) refl

-- The calls that validateResponse finds no error in are those without an error and with status 200,
-- given that without an error there is a response that CheckResponse accepts.
pub validate_response_iff :
    (now : ℤ) (err : Option Text) (resp : Option Reply) (action : Text)
    → IsAnswer err resp
    → (validate_response now err resp action ≡ fine) ↔ IsOk err resp
validate_response_iff now (some e) resp action law =
    (λ h. absurd (error-not_fine now e resp action h), λ h. let f = h.0 in absurd (cc))
validate_response_iff now none resp action law =
    let (r, e, c) = law refl in
    let same : validate_response now none resp action ≡ judge none r action =
      ap (λ x. validate_response now none x action) e ∙ validated now r action c in
    (
      λ h. (refl, r, e, (judge_iff r action).0 (sym same ∙ h)),
      λ (f, s, d, k).
          let t : some r ≡ some s = sym e ∙ d in
          let u : r ≡ s = cc in same ∙ (judge_iff r action).1 (ap (λ x. x.status_code) u ∙ k),
    )

-- From the page on, the pull requests are listed on so many pages.
abbrev pub Listing :
    (api : Api) → (owner repo head : Text) → api.Store → (pages page : ℕ) → List Pull → Type 0
Listing api owner repo head store zero page ps = ⊥
Listing api owner repo head store (suc n) page ps =
    (api.list_pulls owner repo head page store ≡ returns (ps, 0))
    ⊎ ((here : List Pull) × (next : ℕ) × (rest : List Pull) × (api.list_pulls owner repo head page
            store
          ≡ returns (here, suc next))
        × Listing api owner repo head store n (suc next) rest
        × (ps ≡ here ++ rest))

abbrev pub none_matches : Result ℤ
none_matches = fails (codes "no matching pull request found")

abbrev pub number_of : Pull → Result ℤ
number_of p = returns p.number

abbrev pub with_sha : Text → List Pull → Option Pull
with_sha sha ps = first_by (λ p. text_eq p.head_sha sha) ps

module _ (api : Api) (now : ℤ) (owner repo head sha : Text) (store : api.Store) where
  pull_from-ending :
      (n page fuel : ℕ) (ps : List Pull)
      → Listing api owner repo head store n page ps
      → n ≤ fuel
      → pull_from api now owner repo head sha fuel page store
        ≡ some (ending number_of none_matches (with_sha sha ps))
  unfolding pull_from
  pull_from-ending zero page fuel ps l h = absurd l
  pull_from-ending (suc n) page zero ps l h = absurd (omega arith)
  pull_from-ending (suc n) page (suc fuel) ps (inl e) h =
      rw (e, pull_from) (last_ending number_of none_matches (with_sha sha ps))
  pull_from-ending (suc n) page (suc fuel) ps (inr (here, next, rest, e, l, same)) h =
      rw (e, pull_from)
        (next_ending number_of none_matches (with_sha sha here) (with_sha sha rest) _ next
          (pull_from-ending n (suc next) fuel rest l (omega arith)))
      ∙ ap (λ o. some (ending number_of none_matches o))
          (sym (first_by-append _ here rest) ∙ ap (with_sha sha) (sym same))

-- With fuel for the pages, GetWorkloadRunPullRequestNumber returns the number of the first pull
-- request of the whole listing whose head is the commit, and an error when there is none.
pub pull_request_number_lem :
    (api : Api) (now : ℤ) (owner repo branch sha : Text) (store : api.Store) (n fuel : ℕ)
    (ps : List Pull)
    → Listing api owner repo (owner ++ (codes ":" ++ branch)) store n 0 ps
    → n ≤ fuel
    → get_workload_run_pull_request_number api now owner repo branch sha fuel store
      ≡ some (ending number_of none_matches (with_sha sha ps))
unfolding get_workload_run_pull_request_number
pull_request_number_lem api now owner repo branch sha store n fuel ps l h =
    pull_from-ending api now owner repo (owner ++ (codes ":" ++ branch)) sha store n 0 fuel ps l h
