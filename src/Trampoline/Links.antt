-- ===== src/Trampoline/Links.antt =====
-- The links that the trampoline attaches to an event, and the secrets it tries.
use terraform_cloudrun_glue.Base.{
  ◌≡◌, refl, sym, ap, subst, Bool, true, false, not, ◌&&◌, ◌||◌, [], if◌then◌else◌, inl, inr, ◌⊎◌,
  ℤ, pos, ltb_ℤ, Text, codes, text_eq, text_eq_iff, Bool-cases,
}
use terraform_cloudrun_glue.Trampoline.{
  PayloadInfo, extract_pull_request_url, extract_issue_url, pull_request_number_of, issue_number_of,
  github_url,
}

one_side :
    (b x : Bool) (n : ℤ)
    → (ltb_ℤ (pos 0) (if b && x then n else pos 0) ≡ false)
      ⊎ (ltb_ℤ (pos 0) (if not b && x then n else pos 0) ≡ false)
one_side true x n = inr refl
one_side false x n = inl refl

abbrev Apart : PayloadInfo → Text → Type 0
Apart info t =
    (ltb_ℤ (pos 0) (pull_request_number_of t info) ≡ false)
    ⊎ (ltb_ℤ (pos 0) (issue_number_of t info) ≡ false)

comment-Apart : (info : PayloadInfo) → Apart info (codes "issue_comment")
unfolding pull_request_number_of issue_number_of
comment-Apart info = one_side info.issue_pull_request_info _ info.issue_number

issues-Apart : (info : PayloadInfo) → Apart info (codes "issues")
unfolding pull_request_number_of
issues-Apart info = inl refl

no_issue :
    (t : Text) (info : PayloadInfo)
    → text_eq t (codes "issues") ≡ false
    → text_eq t (codes "issue_comment") ≡ false
    → issue_number_of t info ≡ pos 0
unfolding issue_number_of
no_issue t info h k = rw (h, k) refl

numbers-Apart : (t : Text) (info : PayloadInfo) → Apart info t
numbers-Apart t info = elim (Bool-cases (text_eq t (codes "issue_comment"))) [
  | inl e ↦ subst (Apart info) (sym ((text_eq_iff t _).0 e)) (comment-Apart info)
  | inr e ↦ elim (Bool-cases (text_eq t (codes "issues"))) [
    | inl k ↦ subst (Apart info) (sym ((text_eq_iff t _).0 k)) (issues-Apart info)
    | inr k ↦ inr (ap (ltb_ℤ (pos 0)) (no_issue t info k e))
  ]
]

unlinked :
    (n : ℤ) (kind : Text) (info : PayloadInfo)
    → ltb_ℤ (pos 0) n ≡ false
    → github_url kind info n ≡ []
unlinked n kind info e =
    elim (Bool-cases (text_eq info.repository_owner_login [] || text_eq info.repository_name [])) [
      | inl h ↦ rw h refl
      | inr h ↦ rw (h, e) refl
    ]

-- An event never has both a link to a pull request and a link to an issue, whatever its type and
-- its payload.
pub links_apart :
    (t : Text) (info : PayloadInfo)
    → (extract_pull_request_url t info ≡ []) ⊎ (extract_issue_url t info ≡ [])
unfolding extract_pull_request_url extract_issue_url
links_apart t info = elim (numbers-Apart t info) [
  | inl e ↦ inl (unlinked (pull_request_number_of t info) (codes "/pull/") info e)
  | inr e ↦ inr (unlinked (issue_number_of t info) (codes "/issues/") info e)
]
